-- ===== src/Access/Accounts.antt =====
-- What is to become of every name of a batch.
use go_ads.Common.{
  ℕ, ◌≡◌, refl, Bool, true, false, ◌||◌, List, [], ◌∷◌, ◌++◌, Bytes, Option, none, some, arith, All,
  if-both, ◌==◌,
}
use go_ads.Common.Dict.{Bytes-Key, eq_text, eq_text_refl}
use go_ads.Client.Conn.{Conn}
use go_ads.Access.Cache.{Shared}
use go_ads.Access.BatchResult.{Item, is_listed, insert_item, sort_batch_items, new_batch_error, Op}
use go_ads.Access.Read.{Failure, call_failed, items_failed, of_items, Sent, unanswered, retried}

unfoldable pub is_sent : {R : Type 0} → Bytes → Sent R → Bool
is_sent name [] = false
is_sent name ((n, _) ∷ infos) = eq_text name n || is_sent name infos

unfoldable pub is_call_failure : Option Failure → Bool
is_call_failure (some (call_failed _)) = true
is_call_failure _ = false

unfoldable pub failed_items : Option Failure → List Item
failed_items (some (items_failed e)) = e.items
failed_items _ = []

pub is_listed-append :
    (name : Bytes) (is js : List Item)
    → is_listed name (is ++ js) ≡ (is_listed name is || is_listed name js)
unfolding is_listed
is_listed-append name [] js = refl
is_listed-append name (i ∷ is) js = ground (arith, is_listed-append name is js)

pub is_listed-unanswered :
    {R : Type 0} (name : Bytes) (infos : Sent R)
    → is_listed name (unanswered infos) ≡ is_sent name infos
unfolding is_listed unanswered is_sent
is_listed-unanswered name [] = refl
is_listed-unanswered name ((n, r) ∷ infos) = ground (arith, is_listed-unanswered name infos)

is_listed-insert_item :
    (name : Bytes) (i : Item) (is : List Item)
    → is_listed name (insert_item i is) ≡ is_listed name (i ∷ is)
unfolding is_listed insert_item
is_listed-insert_item name i [] = refl
is_listed-insert_item name i (j ∷ js) = ground (arith, is_listed-insert_item name i js)

pub is_listed-sort_batch_items :
    (name : Bytes) (is : List Item) → is_listed name (sort_batch_items is) ≡ is_listed name is
unfolding is_listed sort_batch_items
is_listed-sort_batch_items name [] = refl
is_listed-sort_batch_items name (i ∷ is) =
    rw (is_listed-insert_item name i (sort_batch_items is))
      (ground (arith, is_listed-sort_batch_items name is))

-- The items of an error are those that it was made of.
pub failed_items-of_items :
    (op : Op) (requested succeeded : ℕ) (is : List Item)
    → (failed_items (of_items (new_batch_error op requested succeeded is)) ≡ is)
      × (is_call_failure (of_items (new_batch_error op requested succeeded is)) ≡ false)
unfolding failed_items new_batch_error is_call_failure
failed_items-of_items op requested succeeded [] = (refl, refl)
failed_items-of_items op requested succeeded (i ∷ is) = (refl, refl)

-- A disjunction that holds, holds with a weaker right side.
pub or_weaken : (x y z : Bool) → (x || y) ≡ true → (y ≡ true → z ≡ true) → (x || z) ≡ true
or_weaken true y z h f = refl
or_weaken false y z h f = f h

pub or_right : (x y : Bool) → y ≡ true → (x || y) ≡ true
or_right x y h = ground arith

-- What was not dropped before the batch is accounted for by what became of it.
pub or_join :
    (sent dropped x y : Bool)
    → (sent || dropped) ≡ true
    → (sent ≡ true → (x || y) ≡ true)
    → (x || (dropped || y)) ≡ true
or_join true dropped x y h f = or_weaken x y (dropped || y) (f refl) (or_right dropped y)
or_join false dropped x y h f = or_right x (dropped || y) (rw h refl)

-- Sent for, or dropped before.
abbrev pub Named : {R : Type 0} → Sent R × List Item → Bytes → Type 0
Named x name = (is_sent name x.0 || is_listed name x.1) ≡ true

module _ {R : Type 0} where
  still_sent :
      (n : Bytes) (q : R) (infos : Sent R) (failed : List Item) (names : List Bytes)
      → All (Named (infos, failed)) names
      → All (Named ((n, q) ∷ infos, failed)) names
  unfolding is_sent
  still_sent n q infos failed [] l = tt
  still_sent n q infos failed (m ∷ ms) (e, l) = (ground arith, still_sent n q infos failed ms l)

  still_dropped :
      (i : Item) (infos : Sent R) (failed : List Item) (names : List Bytes)
      → All (Named (infos, failed)) names
      → All (Named (infos, i ∷ failed)) names
  unfolding is_listed
  still_dropped i infos failed [] l = tt
  still_dropped i infos failed (m ∷ ms) (e, l) = (ground arith, still_dropped i infos failed ms l)

  pub one_sent :
      (n : Bytes) (q : R) (x : Sent R × List Item) (names : List Bytes)
      → All (Named x) names
      → All (Named ((n, q) ∷ x.0, x.1)) (n ∷ names)
  unfolding is_sent
  one_sent n q x names l = (rw (eq_text_refl n) refl, still_sent n q x.0 x.1 names l)

  pub one_dropped :
      (i : Item) (x : Sent R × List Item) (names : List Bytes)
      → All (Named x) names
      → All (Named (x.0, i ∷ x.1)) (i.symbol ∷ names)
  unfolding is_listed
  one_dropped i x names l = (
    or_right (is_sent i.symbol x.0) _ (rw (eq_text_refl i.symbol) refl),
    still_dropped i x.0 x.1 names l,
  )

-- What holds of the answer, and of every other try, holds whether there is one.
pub retried-both :
    {A P : Type 0} (Q : A × Conn (Shared P) → Type 0) (wait : Conn (Shared P) → Conn (Shared P))
    (again : Option (Conn (Shared P) → A × Conn (Shared P))) (epoch : ℕ) (answer : A)
    (c : Conn (Shared P))
    → ((c' : Conn (Shared P)) → Q (answer, c'))
    → (elim again as (λ _. Type 0) [
      | none ↦ Unit {0}
      | some call ↦ (c' : Conn (Shared P)) → Q (call c')
    ])
    → Q (retried wait again epoch answer c)
unfolding retried
retried-both Q wait none epoch answer c h k = h (wait c)
retried-both Q wait (some call) epoch answer c h k =
    if-both Q ((wait c).world.epoch == epoch) (h (wait c)) (k (wait c))
