-- ===== src/Access/BatchResult.antt =====
-- batch_result.go: the items of a batch that have no value, and the error that carries them. The
-- texts are left out, but for the choice of the items that `Error` names.
use go_ads.Common.{
  ℕ, ◌-◌, ◌==◌, Bool, true, false, List, [], ◌∷◌, Bytes, length, take, ltb, if◌then◌else◌, Option,
  none, some, Fault, ◌||◌,
}
use go_ads.Common.Dict.{eq_text}

-- The ErrBatch values, around a cause or not.
pub data Skipped : Type 0 where
  symbol_unresolved : Fault → Skipped
  value_unserializable : Fault → Skipped
  value_unparsable : Fault → Skipped
  symbol_vanished no_result : Skipped

-- BatchItemError
pub record Item : Type 0 where
  pub symbol : Bytes
  pub error : ℕ
  pub skipped : Option Skipped

abbrev pub skipped_item : Bytes → Skipped → Item
skipped_item name why = record { symbol = name; error = 0; skipped = some why }

abbrev pub refused_item : Bytes → ℕ → Item
refused_item name code = record { symbol = name; error = code; skipped = none }

-- BatchError
pub data Op : Type 0 where
  reads writes : Op

pub record BatchError : Type 0 where
  pub op : Op
  pub requested : ℕ
  pub succeeded : ℕ
  pub items : List Item

unfoldable pub new_batch_error : Op → ℕ → ℕ → List Item → Option BatchError
new_batch_error op requested succeeded [] = none
new_batch_error op requested succeeded (i ∷ is) =
    some (record { op = op; requested = requested; succeeded = succeeded; items = i ∷ is })

abbrev pub max_named_batch_items : ℕ
max_named_batch_items = 8

-- The items that `Error` names, and how many more it counts.
unfoldable pub named_items : BatchError → List Item × ℕ
named_items e = (take max_named_batch_items e.items, length e.items - max_named_batch_items)

-- Unwrap
unfoldable pub unwrap : List Item → List Skipped
unwrap [] = []
unwrap (i ∷ is) = let rest = unwrap is in elim i.skipped [ none ↦ rest | some why ↦ why ∷ rest ]

-- `<` on strings
unfoldable pub is_before : Bytes → Bytes → Bool
is_before [] [] = false
is_before [] (y ∷ ys) = true
is_before (x ∷ xs) [] = false
is_before (x ∷ xs) (y ∷ ys) =
    let rest = is_before xs ys in if ltb x y then true else if x == y then rest else false

unfoldable pub insert_item : Item → List Item → List Item
insert_item i [] = i ∷ []
insert_item i (j ∷ js) =
    let rest = insert_item i js in if is_before j.symbol i.symbol then j ∷ rest else i ∷ j ∷ js

-- sortBatchItems; `sort.Slice` leaves the order of equal names open.
unfoldable pub sort_batch_items : List Item → List Item
sort_batch_items [] = []
sort_batch_items (i ∷ is) = insert_item i (sort_batch_items is)

-- A symbol that is among the items.
unfoldable pub is_listed : Bytes → List Item → Bool
is_listed name [] = false
is_listed name (i ∷ is) = eq_text name i.symbol || is_listed name is
