-- ===== src/Access/Resolve/Samples.antt =====
-- getSymbol, while another caller swaps the cache and drops the handle of another symbol.
use go_ads.Common.{
  ℕ, ◌≡◌, ◌<◌, refl, Bool-cases, arith, Bool, true, false, ◌==◌, [], ◌∷◌, Bytes, none, some, Result,
  ok, err, transport, if◌then◌else◌, inl, inr, ◌⊎◌, Option,
}
use go_ads.Common.Dict.{Bytes-Key, ℕ-Key, eq_text, lookup}
use go_ads.Defs.Command
use go_ads.Client.Conn.{Conn, unchecked}
use go_ads.Common.Words.{put_le, get_le}
use go_ads.Client.Rpc.{write_read, write}
use go_ads.Client.Wire.{write_read_request, parse_data_response}
use go_ads.Client.Sum.Layout.{u32}
use go_ads.Access.Cache.{at, Shared, nil_symbol}
use go_ads.Access.Resolve.{get_symbol, get_handle_by_name, get_symbol_info_by_name, release_handle}
use go_ads.Access.Resolve.Handles.{Tracked}
use go_ads.Access.Resolve.Laws.{Owed, Honest, get_symbol-Tracked}

abbrev same : Bytes → Bytes
same s = s

abbrev a : Bytes
a = b'a' ∷ []

abbrev b : Bytes
b = b'b' ∷ []

-- Whether the handle 5 is open, and whether the handle 6 was dropped.
record Plc : Type 0 where
  five : Bool
  dropped : Bool

abbrev Open : ℕ → Plc → Type 0
Open h p = ((h ≡ 5) × (p.five ≡ true)) ⊎ (h ≡ 6)

abbrev Lost : ℕ → Plc → Type 0
Lost h p = (h ≡ 6) × (p.dropped ≡ true)

abbrev asks_for_handle : Bytes → Bool
asks_for_handle [] = false
asks_for_handle (x ∷ payload) = x == 3

-- The cache is swapped whenever a handle is asked for or released.
abbrev swapped : Bool → Shared Plc → Shared Plc
swapped five s = record s { plc = record { five = five; dropped = true }; symbols = [] }

abbrev answer : ℕ → Bytes → Shared Plc → Result Bytes × Shared Plc
answer command payload s =
    if command == Command.write
    then (ok (0 ∷ 0 ∷ 0 ∷ 0 ∷ []), swapped false s)
    else if asks_for_handle payload
    then (ok (0 ∷ 0 ∷ 0 ∷ 0 ∷ 4 ∷ 0 ∷ 0 ∷ 0 ∷ 5 ∷ 0 ∷ 0 ∷ 0 ∷ []), swapped true s)
    else (err transport, s)

granted-eq :
    (name : Bytes) (c : Conn (Shared Plc))
    → get_handle_by_name same answer name c ≡ (ok 5, record c { world = swapped true c.world })
unfolding get_handle_by_name write_read write_read_request put_le parse_data_response get_le u32
granted-eq name c = refl

informed-eq :
    (name : Bytes) (c : Conn (Shared Plc))
    → (get_symbol_info_by_name same answer name c).1.world ≡ c.world
unfolding get_symbol_info_by_name write_read write_read_request put_le
informed-eq name c = refl

released-eq :
    (h : ℕ) (c : Conn (Shared Plc))
    → release_handle same answer h c ≡ record c { world = swapped false c.world }
unfolding release_handle write
released-eq h c = refl

no_entry : (k : Bytes) (x : ℕ) → lookup k [] ≡ some x → ⊥
unfolding lookup
no_entry k x e = cc

-- After a swap there is the handle 5 at most.
swapped-Tracked :
    (five : Bool) (s : Shared Plc) (spare : Option ℕ)
    → (five ≡ true → spare ≡ some 5)
    → Tracked same (Owed same Open Lost) spare (swapped five s)
swapped-Tracked five s spare f = record {
  owned = λ h o. elim o.0 [ inl (e, g) ↦ inl (rw e (f g)) | inr e ↦ absurd (o.1 (e, refl)) ];
  allocated = λ k x e. absurd (no_entry k x e);
}

is_honest : Honest same Open Lost answer
is_honest = record {
  granting =
      λ name c t. rw (granted-eq name c) (refl, swapped-Tracked true c.world (some 5) (λ e. refl));
  informing = λ name c t. rw (informed-eq name c) t;
  releasing = λ h c t. rw (released-eq h c) (swapped-Tracked false c.world none (λ e. absurd cc));
}

-- The first symbol is in the cache without a handle, the second with one.
abbrev client : Conn (Shared Plc)
client = record {
  caps = unchecked;
  world = record {
    plc = record { five = false; dropped = false };
    now = 0;
    has_client = true;
    epoch = 0;
    symbols = (a, 0) ∷ (b, 1) ∷ [];
    on_demand_symbols = [];
    heap = (0, nil_symbol) ∷ (1, record nil_symbol { handle = 6 }) ∷ [];
    next = 2;
    datatypes = none;
    detections = [];
  };
}

client-Tracked : Tracked same (Owed same Open Lost) none client.world
unfolding lookup eq_text at
client-Tracked = record {
  owned = λ h o. elim o.0 [
    | inl (_, e) ↦ absurd (let f : false ≡ true = e in cc)
    | inr e ↦
        inr
          (rw e (record { key = b; address = 1; entry = refl; has_handle = refl; nonzero = refl }))
  ];
  allocated = λ k x e. below k x e;
}
  where
    below : (k : Bytes) (x : ℕ) → lookup k ((a, 0) ∷ (b, 1) ∷ []) ≡ some x → x < 2
    below k x e = elim (Bool-cases (eq_text k a)) [
      | inl q ↦ let f : some 0 ≡ some x = rw q at e in ground arith
      | inr q ↦ elim (Bool-cases (eq_text k b)) [
        | inl r ↦ let f : some 1 ≡ some x = rw (q, r) at e in ground arith
        | inr r ↦ let f : none ≡ some x = rw (q, r) at e in absurd cc
      ]
    ]

get_symbol-Tracked_example :
    Tracked same (Owed same Open Lost) none (get_symbol same answer a client).1.world
get_symbol-Tracked_example =
    get_symbol-Tracked same Open Lost answer is_honest a client client-Tracked
