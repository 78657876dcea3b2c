-- ===== src/Common/Words.antt =====
-- Little-endian words, as `encoding/binary` writes and reads them.
use Prim.Native.Nat.{ℕ, zero, suc, ◌+◌, ◌*◌, ◌/◌, ◌%◌, ◌^◌, ◌≤◌, ◌<◌}
use mathlib.Core.Path.{◌≡◌, refl, ap}
use go_ads.Common.Results.{Result, ok, err, malformed, Result-cases, ◌>>=◌, Fault}
use mathlib.Core.List.{[], ◌∷◌, ◌++◌}
use native.Mathlib.Omega.{arith}
use native.Mathlib.Nat.{pow-suc}
use mathlib.Core.Logic.{inl, inr}
use go_ads.Common.Tests.{ltb, if◌then◌else◌}
use go_ads.Common.Lists.{
  Bytes, length, take, drop, All, length-append, length-take, length-drop, take-append_length,
  drop-append_length, take-append-drop,
}

abbrev pub IsByte : ℕ → Type 0
IsByte b = b < 256

abbrev pub IsU16 : ℕ → Type 0
IsU16 v = v < 2 ^ 16

abbrev pub IsU32 : ℕ → Type 0
IsU32 v = v < 2 ^ 32

abbrev pub IsU64 : ℕ → Type 0
IsU64 v = v < 2 ^ 64

-- The `w` low bytes of `v`, lowest first.
unfoldable pub put_le : ℕ → ℕ → Bytes
put_le zero v = []
put_le (suc w) v = (v % 256) ∷ put_le w (v / 256)

-- A `w`-byte word from the front of a buffer, with what follows it; an error on a short buffer.
unfoldable pub get_le : ℕ → Bytes → Result (ℕ × Bytes)
get_le zero bs = ok (0, bs)
get_le (suc w) [] = err malformed
get_le (suc w) (b ∷ bs) = elim (get_le w bs) [
  | err e ↦ err e
  | ok (v, rest) ↦ ok (b + 256 * v, rest)
]

pub length-put_le : (w v : ℕ) → length (put_le w v) ≡ w
unfolding put_le
length-put_le zero v = refl
length-put_le (suc w) v = ap suc (length-put_le w (v / 256))

pub put_le-IsByte : (w v : ℕ) → All IsByte (put_le w v)
unfolding put_le
put_le-IsByte zero v = tt
put_le-IsByte (suc w) v = (omega arith, put_le-IsByte w (v / 256))

-- A word that fits its width is read back, and what follows it is left.
pub get_le-put_le :
    (w v : ℕ) (rest : Bytes) → v < 256 ^ w → get_le w (put_le w v ++ rest) ≡ ok (v, rest)
unfolding get_le put_le
get_le-put_le zero v rest h = ground arith
get_le-put_le (suc w) v rest h =
    let p : v / 256 < 256 ^ w = omega (arith, pow-suc 256 w) in
    rw (get_le-put_le w (v / 256) rest p) (ground arith)

-- What `get_le` takes from a buffer, written again, is the front of that buffer.
pub get_le_sound :
    (w : ℕ) (bs : Bytes) {v : ℕ} {rest : Bytes}
    → All IsByte bs
    → get_le w bs ≡ ok (v, rest)
    → (v < 256 ^ w) × (put_le w v ++ rest ≡ bs) × All IsByte rest
unfolding get_le put_le
get_le_sound zero bs h e = ground arith
get_le_sound (suc w) [] h e = cc
get_le_sound (suc w) (b ∷ bs) {v} {rest} (hb, hs) e = elim (Result-cases (get_le w bs)) [
  | inl (x, p) ↦ cc (p, e)
  | inr ((u, r), p) ↦
      let (lt, back, tl) = get_le_sound w bs {v = u} {rest = r} hs p in
      ground (arith, p, pow-suc 256 w, lt, back, tl)
]

-- A buffer of at least `w` bytes is enough, and a shorter one is not.
pub get_le_ok :
    (w : ℕ) (bs : Bytes)
    → w ≤ length bs
    → (v : ℕ) × (rest : Bytes) × (get_le w bs ≡ ok (v, rest)) × (length rest + w ≡ length bs)
unfolding get_le
get_le_ok zero bs h = (0, bs, refl, omega arith)
get_le_ok (suc w) [] h = absurd (omega arith)
get_le_ok (suc w) (b ∷ bs) h =
    let (v, rest, e, l) = get_le_ok w bs (omega arith) in (b + 256 * v, rest, rw e, omega arith)

pub get_le_short : (w : ℕ) (bs : Bytes) → length bs < w → get_le w bs ≡ err malformed
unfolding get_le
get_le_short zero bs h = absurd (omega arith)
get_le_short (suc w) [] h = refl
get_le_short (suc w) (b ∷ bs) h = rw (get_le_short w bs (omega arith))

-- A read takes its width from the buffer.
pub length-get_le :
    (w : ℕ) (bs : Bytes) {v : ℕ} {rest : Bytes}
    → get_le w bs ≡ ok (v, rest)
    → length rest + w ≡ length bs
unfolding get_le
length-get_le zero bs e = ground arith
length-get_le (suc w) [] e = cc
length-get_le (suc w) (b ∷ bs) {v} {rest} e = elim (Result-cases (get_le w bs)) [
  | inl (x, p) ↦ cc (p, e)
  | inr ((u, r), p) ↦ ground (arith, p, length-get_le w bs {v = u} {rest = r} p)
]

-- `make([]byte, n)` filled from the buffer: `n` bytes and what follows, an error if they are short.
unfoldable pub get_bytes : ℕ → Bytes → Result (Bytes × Bytes)
get_bytes n bs = if ltb (length bs) n then err malformed else ok (take n bs, drop n bs)

pub get_bytes-append : (xs rest : Bytes) → get_bytes (length xs) (xs ++ rest) ≡ ok (xs, rest)
unfolding get_bytes
get_bytes-append xs rest =
    rw (take-append_length xs rest, drop-append_length xs rest)
      (ground (arith, length-append xs rest))

pub get_bytes_exact :
    (n : ℕ) (xs rest : Bytes) → length xs ≡ n → get_bytes n (xs ++ rest) ≡ ok (xs, rest)
get_bytes_exact n xs rest e = rw (← e) (get_bytes-append xs rest)

pub get_bytes_lem :
    (n : ℕ) (bs : Bytes) {xs rest : Bytes}
    → get_bytes n bs ≡ ok (xs, rest)
    → (length xs ≡ n) × (xs ++ rest ≡ bs) × (length rest + n ≡ length bs)
unfolding get_bytes
get_bytes_lem n bs e = ground (arith, length-take n bs, length-drop n bs, take-append-drop n bs)

-- A read that has a result has taken at least `k` of `n` bytes.
abbrev pub Took {ℓ} : {A : Type ℓ} → ℕ → ℕ → Result (A × Bytes) → Type 0
Took k n (err e) = Unit {0}
Took k n (ok (a, rest)) = length rest + k ≤ n

pub get_le-Took : (w : ℕ) (bs : Bytes) → Took w (length bs) (get_le w bs)
get_le-Took w bs = elim (Result-cases (get_le w bs)) [
  | inl (e, h) ↦ rw h tt
  | inr ((v, rest), h) ↦ rw h (omega (arith, length-get_le w bs h))
]

pub get_bytes-Took : (n : ℕ) (bs : Bytes) → Took n (length bs) (get_bytes n bs)
get_bytes-Took n bs = elim (Result-cases (get_bytes n bs)) [
  | inl (e, h) ↦ rw h tt
  | inr ((xs, rest), h) ↦ rw h (omega (arith, (get_bytes_lem n bs h).2))
]

-- What holds of a failed read, and of every read that takes so much, holds of the rest of a `do`.
pub Took-both {ℓ κ μ} :
    {A : Type ℓ} {B : Type κ} (P : Result B → Type μ) (k n : ℕ) (r : Result (A × Bytes))
    (f : A × Bytes → Result B)
    → Took k n r
    → ((e : Fault) → P (err e))
    → ((a : A) (rest : Bytes) → length rest + k ≤ n → P (f (a, rest)))
    → P (r >>= f)
Took-both P k n (err e) f t p q = p e
Took-both P k n (ok (a, rest)) f t p q = q a rest t
