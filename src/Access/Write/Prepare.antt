-- ===== src/Access/Write/Prepare.antt =====
-- What is sent for in a batch of writes.
use go_ads.Common.{ℕ, ◌≡◌, refl, false, List, [], ◌∷◌, Bytes, Option, All, Result, Result-both}
use mathlib.Core.Path.{subst}
use go_ads.Common.Dict.{Dict, Bytes-Key, has, IsDict}
use go_ads.Codec.{DataTypes, write_to_node}
use go_ads.Codec.Scalar.{Forms}
use go_ads.Client.Conn.{Conn}
use go_ads.Client.Sum.Layout.{WriteRequest}
use go_ads.Access.BatchResult.{Item, skipped_item, symbol_unresolved, value_unserializable}
use go_ads.Access.Cache.{Shared, at}
use go_ads.Access.Resolve.{get_symbol}
use go_ads.Access.Read.{Sent}
use go_ads.Access.Write.{prepare_writes}
use go_ads.Access.Accounts.{Named, one_sent, one_dropped}
use go_ads.Access.Write.Codes.{names_of, has_neither, has_none}

module _ (symbol_key : Bytes → Bytes) (forms : Forms) {P : Type 0}
    (ask : ℕ → Bytes → Shared P → Result Bytes × Shared P)
    (wait_for_reconnect : Conn (Shared P) → Conn (Shared P)) where
  abbrev pub prepared :
      Option DataTypes
      → Dict Bytes Bytes
      → Conn (Shared P)
      → (Sent WriteRequest × List Item) × Conn (Shared P)
  prepared types values c = prepare_writes symbol_key forms ask wait_for_reconnect types values c

  -- What holds of the names before one more is sent for or dropped, and after.
  prepare_split :
      (Q : (Sent WriteRequest × List Item) × Conn (Shared P) → Type 0) (types : Option DataTypes)
      (name value : Bytes) (values : Dict Bytes Bytes) (c : Conn (Shared P))
      → (let rest = prepared types values (get_symbol symbol_key ask name c).1 in
          ((q : WriteRequest) → Q (((name, q) ∷ rest.0.0, rest.0.1), rest.1)))
      → (let rest = prepared types values (get_symbol symbol_key ask name c).1 in
          ((i : Item) → i.symbol ≡ name → Q ((rest.0.0, i ∷ rest.0.1), rest.1)))
      → Q (prepared types ((name, value) ∷ values) c)
  unfolding prepare_writes
  prepare_split Q types name value values c h k =
      let found = get_symbol symbol_key ask name c in
      Result-both Q found.0 (λ e. k (skipped_item name (symbol_unresolved e)) refl)
        (λ address.
          Result-both Q (write_to_node forms (at found.1.world.heap address).codec value types)
            (λ e. k (skipped_item name (value_unserializable e)) refl) (λ body. h _))

  pub prepare-Named :
      (types : Option DataTypes) (values : Dict Bytes Bytes) (c : Conn (Shared P))
      → All (Named (prepared types values c).0) (names_of values)
  unfolding prepare_writes
  prepare-Named types [] c = tt
  prepare-Named types ((name, value) ∷ values) c =
      let found = get_symbol symbol_key ask name c in
      let rest = prepared types values found.1 in
      let named = prepare-Named types values found.1 in
      prepare_split (λ y. All (Named y.0) (name ∷ names_of values)) types name value values c
        (λ q. one_sent name q rest.0 (names_of values) named)
        (λ i e.
          let l : All (Named (rest.0.0, i ∷ rest.0.1)) (i.symbol ∷ names_of values) =
            one_dropped i rest.0 (names_of values) named in
          subst (λ n. All (Named (rest.0.0, i ∷ rest.0.1)) (n ∷ names_of values)) e l)

  -- Only what is asked for is sent for, and once.
  prepare_absent :
      (name : Bytes) (types : Option DataTypes) (values : Dict Bytes Bytes) (c : Conn (Shared P))
      → has name values ≡ false
      → has name (prepared types values c).0.0 ≡ false
  unfolding prepare_writes
  prepare_absent name types [] c h = unfold has in refl
  prepare_absent name types ((n, value) ∷ values) c h =
      let (e, k) = has_neither name n value values h in
      let absent = prepare_absent name types values (get_symbol symbol_key ask n c).1 k in
      prepare_split (λ y. has name y.0.0 ≡ false) types n value values c
        (λ q. has_none name n q _ e absent) (λ i f. absent)

  pub prepare-IsDict :
      (types : Option DataTypes) (values : Dict Bytes Bytes) (c : Conn (Shared P))
      → IsDict values
      → IsDict (prepared types values c).0.0
  unfolding prepare_writes IsDict
  prepare-IsDict types [] c d = tt
  prepare-IsDict types ((n, value) ∷ values) c (new, d) =
      let found = get_symbol symbol_key ask n c in
      let single = prepare-IsDict types values found.1 d in
      prepare_split (λ y. IsDict y.0.0) types n value values c
        (λ q. (prepare_absent n types values found.1 new, single)) (λ i f. single)
