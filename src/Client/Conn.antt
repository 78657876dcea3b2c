-- ===== src/Client/Conn.antt =====
-- A client's connection: what it has detected of the PLC (capabilities.go) and the rest of the
-- world, which answers requests. The world, the network and the PLC behind it, is a type `S` and
-- a function `ask`: a command and its payload give the payload of the answer, or the fault of
-- `sendRequest` (client.go), and the next world.
use go_ads.Common.{ℕ, Bool, false, Result, ok, err, ◌==◌, if◌then◌else◌}

pub record Capabilities : Type 0 where
  pub sum_read_cmd : ℕ  -- 0 unchecked, 1 no sum read, else the group in use
  pub sum_write_state : ℕ  -- 0 unchecked, 1 supported, 2 unsupported
  pub sum_add_notif_state : ℕ
  pub sum_delete_notif_state : ℕ
  pub chunked_download_supported : Bool
  pub chunked_download_checked : Bool

-- A fresh client starts zeroed.
abbrev pub unchecked : Capabilities
unchecked = record {
  sum_read_cmd = 0;
  sum_write_state = 0;
  sum_add_notif_state = 0;
  sum_delete_notif_state = 0;
  chunked_download_supported = false;
  chunked_download_checked = false;
}

-- `CompareAndSwap(old, new)` on a value.
abbrev pub cas : ℕ → ℕ → ℕ → ℕ
cas old new v = if v == old then new else v

pub record Conn (S : Type 0) : Type 0 where
  pub caps : Capabilities
  pub world : S

abbrev pub M : Type 0 → Type 0 → Type 0
M S A = Conn S → Result A × Conn S

infixl 5 ◌>>=◌ ◌>>◌
abbrev pub ◌>>=◌ : {S A B : Type 0} → M S A → (A → M S B) → M S B
◌>>=◌ m f c = let (r, c') = m c in elim r [ ok a ↦ f a c' | err e ↦ (err e, c') ]

abbrev pub ◌>>◌ : {S B : Type 0} → M S (Unit {0}) → M S B → M S B
m >> k = m >>= λ _. k

abbrev pub pure : {S A : Type 0} → A → M S A
pure a c = (ok a, c)

abbrev pub lift : {S A : Type 0} → Result A → M S A
lift r c = (r, c)

-- The outcome of an action as a value: Go's `x, err := m()` with a branch on `err`.
abbrev pub outcome : {S A : Type 0} → M S A → M S (Result A)
outcome m c = let (r, c') = m c in (ok r, c')

abbrev pub get_caps : {S : Type 0} → M S Capabilities
get_caps c = (ok c.caps, c)

abbrev pub set_caps : {S : Type 0} → Capabilities → M S (Unit {0})
set_caps k c = (ok tt, record c { caps = k })
