-- ===== src/Access/Write/Codes.antt =====
-- What the loop over the results of a batch of writes does with each name.
use go_ads.Common.{
  ℕ, ◌≡◌, refl, ◌∙◌, Bool, true, false, ◌||◌, ◌==◌, List, [], ◌∷◌, Bytes, none, some, arith, inl,
  inr, Bool-cases, Result, if◌then◌else◌,
}
use go_ads.Common.Dict.{
  Dict, Bytes-Key, eq_text, eq_text_refl, lookup, has, insert, IsDict, lookup-insert_self,
  lookup-insert_ne, eq_text→≡,
}
use go_ads.Codec.Scalar.{Forms}
use go_ads.Client.Conn.{Conn}
use go_ads.Client.Sum.Layout.{WriteRequest}
use go_ads.Access.BatchResult.{Item, refused_item, is_listed}
use go_ads.Access.Cache.{Shared}
use go_ads.Access.Read.{Sent}
use go_ads.Access.Write.{forget_value, note_codes}
use go_ads.Access.Accounts.{is_sent, or_weaken, or_right, is_listed-unanswered}

-- The map has the code of a write that was made.
unfoldable pub is_written : Bytes → Dict Bytes ℕ → Bool
is_written name codes = elim (lookup name codes) [ none ↦ false | some code ↦ code == 0 ]

abbrev pub names_of : Dict Bytes Bytes → List Bytes
names_of [] = []
names_of ((name, _) ∷ values) = name ∷ names_of values

is_sent-has : {R : Type 0} (name : Bytes) (infos : Sent R) → is_sent name infos ≡ has name infos
unfolding is_sent has
is_sent-has name [] = refl
is_sent-has name ((n, r) ∷ infos) = ground (arith, is_sent-has name infos)

pub has_neither :
    {R : Type 0} (name n : Bytes) (r : R) (infos : Sent R)
    → has name ((n, r) ∷ infos) ≡ false
    → (eq_text name n ≡ false) × (has name infos ≡ false)
unfolding has
has_neither name n r infos h = ground arith

pub has_none :
    {R : Type 0} (name n : Bytes) (r : R) (infos : Sent R)
    → eq_text name n ≡ false
    → has name infos ≡ false
    → has name ((n, r) ∷ infos) ≡ false
unfolding has
has_none name n r infos e h = rw e h

abbrev with_refusal : Bytes → ℕ → List Item → List Item
with_refusal name code failed = if code == 0 then failed else refused_item name code ∷ failed

listed-with_refusal :
    (name n : Bytes) (code : ℕ) (failed : List Item)
    → is_listed name failed ≡ true
    → is_listed name (with_refusal n code failed) ≡ true
unfolding is_listed
listed-with_refusal name n code failed h = ground arith

-- A code is that of a write that was made, or it has an item.
code_named :
    (name : Bytes) (code : ℕ) (codes : Dict Bytes ℕ) (failed : List Item)
    → lookup name codes ≡ some code
    → (is_written name codes || is_listed name (with_refusal name code failed)) ≡ true
unfolding is_written is_listed
code_named name code codes failed e = elim (Bool-cases (code == 0)) [
  | inl f ↦ rw (is_written, e, f) refl
  | inr f ↦ rw (is_written, e, f, eq_text_refl name) refl
]

module _ (symbol_key : Bytes → Bytes) (forms : Forms) {P : Type 0}
    (ask : ℕ → Bytes → Shared P → Result Bytes × Shared P)
    (wait_for_reconnect : Conn (Shared P) → Conn (Shared P)) where
  abbrev pub noted :
      Sent WriteRequest
      → List ℕ
      → Dict Bytes ℕ
      → Shared P
      → ((Dict Bytes ℕ × ℕ) × List Item) × Shared P
  noted infos rs codes s = note_codes symbol_key forms ask wait_for_reconnect infos rs codes s

  note_untouched :
      (name : Bytes) (infos : Sent WriteRequest) (rs : List ℕ) (codes : Dict Bytes ℕ) (s : Shared P)
      → has name infos ≡ false
      → lookup name (noted infos rs codes s).0.0.0 ≡ lookup name codes
  unfolding note_codes
  note_untouched name [] rs codes s h = refl
  note_untouched name (i ∷ infos) [] codes s h = refl
  note_untouched name ((n, q) ∷ infos) (code ∷ rs) codes s h =
      let (e, k) = has_neither name n q infos h in
      note_untouched name infos rs (insert n code codes) _ k ∙ lookup-insert_ne name n code codes e

  pub note_named :
      (name : Bytes) (infos : Sent WriteRequest) (rs : List ℕ) (codes : Dict Bytes ℕ) (s : Shared P)
      → IsDict infos
      → is_sent name infos ≡ true
      → (is_written name (noted infos rs codes s).0.0.0
          || is_listed name (noted infos rs codes s).0.1)
        ≡ true
  unfolding note_codes is_sent IsDict
  note_named name [] rs codes s d h = cc
  note_named name (i ∷ infos) [] codes s d h =
      or_right (is_written name codes) _ (is_listed-unanswered name (i ∷ infos) ∙ h)
  note_named name ((n, q) ∷ infos) (code ∷ rs) codes s (new, d) h =
      let s' = if code == 0 then forget_value symbol_key forms ask wait_for_reconnect n s else s in
      let rest = noted infos rs (insert n code codes) s' in
      elim (Bool-cases (eq_text name n)) [
        | inl e ↦
            let f : name ≡ n = eq_text→≡ name n e in
            let g =
              note_untouched n infos rs (insert n code codes) s' new
              ∙ lookup-insert_self n code codes in
            rw f (code_named n code rest.0.0.0 rest.0.1 g)
        | inr e ↦
            let sent : is_sent name infos ≡ true = rw e at h in
            let ih = note_named name infos rs (insert n code codes) s' d sent in
            or_weaken (is_written name rest.0.0.0) (is_listed name rest.0.1) _ ih
              (listed-with_refusal name n code rest.0.1)
      ]
