-- ===== src/Symbols/Array.antt =====
-- The elements of an array: `makeArrayChildren`. The indices run like an odometer, the last one
-- fastest.

pub mod Laws
use go_ads.Common.{
  ℕ, zero, suc, ◌+◌, ◌-◌, ◌*◌, ◌/◌, ◌%◌, ◌^◌, Bool, true, false, List, [], ◌∷◌, ◌++◌, Bytes, length,
  ltb, ◌==◌, if◌then◌else◌, Option, none, some,
}
use go_ads.Common.Decimal.{ℤ, pos, negsuc, format_int}
use go_ads.Common.Int64.{lez, add64}
use go_ads.Codec.Scalar.{to_signed}

-- datatypeArrayInfo
pub record ArrayInfo : Type 0 where
  pub lbound : ℕ
  pub elements : ℕ

abbrev pub max_array_elements : ℕ
max_array_elements = 1000000

-- `int64(int32(level.LBound))`
abbrev pub lower : ArrayInfo → ℤ
lower l = to_signed (2 ^ 31) l.lbound

-- `lbound + int64(level.Elements)`, of a bound and a count of 32 bits
unfoldable pub plus : ℤ → ℕ → ℤ
plus (pos a) n = pos (a + n)
plus (negsuc a) n = if ltb a n then pos (n - a - 1) else negsuc (a - n)

-- The number of elements in all dimensions, none where the array is refused or has no elements.
unfoldable pub element_count : ℕ → List ArrayInfo → Option ℕ
element_count total [] = some total
element_count total (l ∷ ls) =
    let next = element_count (total * l.elements) ls in
    if l.elements == 0
    then none
    else if lez (plus (lower l) l.elements) (pos (2 ^ 31))
    then (if ltb max_array_elements (total * l.elements) then none else next)
    else none

-- One step of the odometer, and whether it has carried out of the first index.
unfoldable pub advance : List ArrayInfo → List ℤ → List ℤ × Bool
advance (l ∷ ls) (i ∷ is) =
    let (is', carry) = advance ls is in
    let up = plus i 1 in
    if carry
    then (if lez (plus (lower l) l.elements) up then (lower l ∷ is', true) else (up ∷ is', false))
    else (i ∷ is', false)
advance _ _ = ([], true)

unfoldable pub join : List ℤ → Bytes
join [] = []
join (i ∷ []) = format_int i
join (i ∷ j ∷ is) = format_int i ++ (b',' ∷ join (j ∷ is))

pub record Element : Type 0 where
  pub indices : List ℤ
  pub offs : ℕ

unfoldable pub element_name : Element → Bytes
element_name e = b'[' ∷ (join e.indices ++ (b']' ∷ []))

-- `count` elements from number `n` on.
unfoldable pub elements_from : List ArrayInfo → ℕ → ℕ → ℕ → List ℤ → List Element
elements_from levels elem_size zero n idx = []
elements_from levels elem_size (suc count) n idx =
    record { indices = idx; offs = n % 2 ^ 32 * elem_size % 2 ^ 32 }
    ∷ elements_from levels elem_size count (n + 1) (advance levels idx).0

abbrev pub start : List ArrayInfo → List ℤ
start [] = []
start (l ∷ ls) = lower l ∷ start ls

-- The elements in the order in which they are filed, with the size of each.
unfoldable pub make_array_elements : List ArrayInfo → ℕ → List Element × ℕ
make_array_elements [] size = ([], 0)
make_array_elements (l ∷ ls) size = elim (element_count 1 (l ∷ ls)) [
  | none ↦ ([], 0)
  | some total ↦
      let elem_size = size / total in
      (elements_from (l ∷ ls) elem_size total 0 (start (l ∷ ls)), elem_size)
]
