-- ===== src/Access/Read/Values.antt =====
-- What the loop over the results of a batch of reads does with each name.
use go_ads.Common.{
  ℕ, ◌≡◌, refl, ◌∙◌, true, ◌||◌, List, [], ◌∷◌, Bytes, arith, ◌⊎◌, inl, inr, Bool-cases, Result,
}
use go_ads.Common.Dict.{
  Dict, Bytes-Key, eq_text, has, insert, has-insert_self, has-insert_ne, eq_text→≡, eq_text_refl,
}
use mathlib.Core.Bool.{or-true}
use go_ads.Codec.Scalar.{Forms}
use go_ads.Client.Conn.{Conn}
use go_ads.Client.Sum.Layout.{ReadRequest, ReadResult}
use go_ads.Access.BatchResult.{Item, is_listed}
use go_ads.Access.Cache.{Shared}
use go_ads.Access.Read.{
  Sent, Taken, valued, no_value, with_value, with_item, take_result, decode_results,
}
use go_ads.Access.Accounts.{is_sent, or_weaken, is_listed-unanswered}

has-insert_le :
    (k j : Bytes) (v : Bytes) (d : Dict Bytes Bytes) → has k d ≡ true → has k (insert j v d) ≡ true
has-insert_le k j v d h = elim (Bool-cases (eq_text k j)) [
  | inl e ↦ rw (eq_text→≡ k j e) (has-insert_self j v d)
  | inr e ↦ has-insert_ne k j v d e ∙ h
]

has-with_value :
    (name n : Bytes) (t : Taken) (values : Dict Bytes Bytes)
    → has name values ≡ true
    → has name (with_value n t values) ≡ true
has-with_value name n (valued text) values h = has-insert_le name n text values h
has-with_value name n (no_value code why) values h = h

-- What is taken for a name gives it a value or an item.
taken_named :
    (name : Bytes) (t : Taken) (values : Dict Bytes Bytes) (failed : List Item)
    → (has name (with_value name t values) ≡ true)
      ⊎ (is_listed name (with_item name t failed) ≡ true)
unfolding is_listed
taken_named name (valued text) values failed = inl (has-insert_self name text values)
taken_named name (no_value code why) values failed = inr (rw (eq_text_refl name) refl)

listed-with_item :
    (name n : Bytes) (t : Taken) (failed : List Item)
    → is_listed name failed ≡ true
    → is_listed name (with_item n t failed) ≡ true
unfolding is_listed
listed-with_item name n (valued text) failed h = h
listed-with_item name n (no_value code why) failed h = ground arith

module _ (symbol_key : Bytes → Bytes) (forms : Forms) {P : Type 0}
    (ask : ℕ → Bytes → Shared P → Result Bytes × Shared P)
    (wait_for_reconnect : Conn (Shared P) → Conn (Shared P)) where
  abbrev pub decoded :
      Sent ReadRequest
      → List ReadResult
      → Dict Bytes Bytes
      → Shared P
      → (Dict Bytes Bytes × List Item) × Shared P
  decoded infos rs values s =
      decode_results symbol_key forms ask wait_for_reconnect infos rs values s

  decode_keeps :
      (name : Bytes) (infos : Sent ReadRequest) (rs : List ReadResult) (values : Dict Bytes Bytes)
      (s : Shared P)
      → has name values ≡ true
      → has name (decoded infos rs values s).0.0 ≡ true
  unfolding decode_results
  decode_keeps name [] rs values s h = h
  decode_keeps name (i ∷ infos) [] values s h = h
  decode_keeps name ((n, q) ∷ infos) (r ∷ rs) values s h =
      let x = take_result symbol_key forms ask wait_for_reconnect n r s in
      decode_keeps name infos rs (with_value n x.0 values) x.1 (has-with_value name n x.0 values h)

  -- A name that was sent for has a value, or is among the items.
  pub decode_named :
      (name : Bytes) (infos : Sent ReadRequest) (rs : List ReadResult) (values : Dict Bytes Bytes)
      (s : Shared P)
      → is_sent name infos ≡ true
      → (has name (decoded infos rs values s).0.0 || is_listed name (decoded infos rs values s).0.1)
        ≡ true
  unfolding decode_results is_sent
  decode_named name [] rs values s h = cc
  decode_named name (i ∷ infos) [] values s h =
      let e = is_listed-unanswered name (i ∷ infos) in ground (arith, e)
  decode_named name ((n, q) ∷ infos) (r ∷ rs) values s h =
      let x = take_result symbol_key forms ask wait_for_reconnect n r s in
      let rest = decoded infos rs (with_value n x.0 values) x.1 in
      elim (Bool-cases (eq_text name n)) [
        | inl e ↦
            let f : name ≡ n = eq_text→≡ name n e in
            elim (taken_named n x.0 values rest.0.1) [
              | inl k ↦
                  let g = decode_keeps n infos rs (with_value n x.0 values) x.1 k in rw (f, g) refl
              | inr k ↦ rw (f, k) (or-true _)
            ]
        | inr e ↦
            let sent : is_sent name infos ≡ true = rw e at h in
            let ih = decode_named name infos rs (with_value n x.0 values) x.1 sent in
            or_weaken (has name rest.0.0) (is_listed name rest.0.1) _ ih
              (listed-with_item name n x.0 rest.0.1)
      ]
