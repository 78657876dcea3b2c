-- ===== src/Symbols/Array/Laws.antt =====
-- The odometer runs through the indices in lexicographic order, and the elements lie one behind
-- the other.
use go_ads.Common.{
  ℕ, zero, suc, ◌+◌, ◌*◌, ◌/◌, ◌%◌, ◌^◌, ◌≤◌, ◌<◌, ◌≡◌, refl, ap, sym, ◌∙◌, Bool, true, false, List,
  [], ◌∷◌, ◌++◌, append-nil, length, length-append, length-map, if◌then◌else◌, some, arith,
}
use mathlib.Core.List.{map}
use native.Mathlib.Nat.{mul_assoc, div-mul-le_self}
use go_ads.Common.Decimal.{ℤ, pos, negsuc}
use go_ads.Common.Int64.{lez, lez_refl}
use go_ads.Symbols.Array.{
  ArrayInfo, lower, plus, element_count, advance, Element, elements_from, start,
  make_array_elements, max_array_elements,
}

-- The indices in lexicographic order.
unfoldable pub range : ℤ → ℕ → List ℤ
range z zero = []
range z (suc n) = z ∷ range (plus z 1) n

unfoldable pub prefix_all : List ℤ → List (List ℤ) → List (List ℤ)
prefix_all [] xs = []
prefix_all (i ∷ is) xs = map (λ x. i ∷ x) xs ++ prefix_all is xs

unfoldable pub all_indices : List ArrayInfo → List (List ℤ)
unfolding range prefix_all
all_indices [] = [] ∷ []
all_indices (l ∷ ls) = prefix_all (range (lower l) l.elements) (all_indices ls)

pub plus-plus : (z : ℤ) (a b : ℕ) → plus (plus z a) b ≡ plus z (a + b)
unfolding plus
plus-plus (pos n) a b = ground arith
plus-plus (negsuc n) a b = ground arith

plus_below : (z : ℤ) (k : ℕ) → lez (plus z (suc (suc k))) (plus z 1) ≡ false
unfolding plus lez
plus_below (pos n) k = ground arith
plus_below (negsuc n) k = ground arith

-- Each of the indices is followed by the next without a carry, and the last leads to `end`.
abbrev Leads : List ArrayInfo → List (List ℤ) → List ℤ × Bool → Type 0
Leads lv [] end = ⊥
Leads lv (x ∷ []) end = advance lv x ≡ end
Leads lv (x ∷ y ∷ xs) end = (advance lv x ≡ (y, false)) × Leads lv (y ∷ xs) end

after_row : ArrayInfo → ℤ → List ℤ → List ℤ × Bool
after_row l i s =
    if lez (plus (lower l) l.elements) (plus i 1)
    then (lower l ∷ s, true)
    else (plus i 1 ∷ s, false)

row-Leads :
    (l : ArrayInfo) (ls : List ArrayInfo) (i : ℤ) (s : List ℤ) (xs : List (List ℤ))
    → Leads ls xs (s, true)
    → Leads (l ∷ ls) (map (λ x. i ∷ x) xs) (after_row l i s)
unfolding advance after_row
row-Leads l ls i s [] h = h
row-Leads l ls i s (x ∷ []) h = rw h
row-Leads l ls i s (x ∷ y ∷ xs) (h, hs) = (rw h, row-Leads l ls i s (y ∷ xs) hs)

append-Leads :
    (lv : List ArrayInfo) (xs ys : List (List ℤ)) (y : List ℤ) (end : List ℤ × Bool)
    → Leads lv xs (y, false)
    → Leads lv (y ∷ ys) end
    → Leads lv (xs ++ (y ∷ ys)) end
append-Leads lv [] ys y end h k = absurd h
append-Leads lv (x ∷ []) ys y end h k = (h, k)
append-Leads lv (x ∷ z ∷ xs) ys y end (h, hs) k = (h, append-Leads lv (z ∷ xs) ys y end hs k)

row_last :
    (l : ArrayInfo) (z : ℤ) (s : List ℤ)
    → plus z 1 ≡ plus (lower l) l.elements
    → after_row l z s ≡ (lower l ∷ s, true)
unfolding after_row
row_last l z s e = rw (e, lez_refl (plus (lower l) l.elements))

row_mid :
    (l : ArrayInfo) (z : ℤ) (s : List ℤ) (k : ℕ)
    → plus z (suc (suc k)) ≡ plus (lower l) l.elements
    → after_row l z s ≡ (plus z 1 ∷ s, false)
unfolding after_row
row_mid l z s k e = rw (← e, plus_below z k)

module _ (l : ArrayInfo) (ls : List ArrayInfo) (s : List ℤ) (xs : List (List ℤ)) where
  rows-Leads :
      (k : ℕ) (z : ℤ)
      → plus z (suc k) ≡ plus (lower l) l.elements
      → Leads ls (s ∷ xs) (s, true)
      → Leads (l ∷ ls) (prefix_all (range z (suc k)) (s ∷ xs)) (lower l ∷ s, true)
  unfolding range prefix_all
  rows-Leads zero z e h =
      let row : Leads (l ∷ ls) (map (λ x. z ∷ x) (s ∷ xs)) (lower l ∷ s, true) =
        rw (row_last l z s e) at (row-Leads l ls z s (s ∷ xs) h) in
      rw (append-nil (map (λ x. z ∷ x) xs)) row
  rows-Leads (suc k) z e h =
      let row : Leads (l ∷ ls) (map (λ x. z ∷ x) (s ∷ xs)) (plus z 1 ∷ s, false) =
        rw (row_mid l z s k e) at (row-Leads l ls z s (s ∷ xs) h) in
      append-Leads (l ∷ ls) (map (λ x. z ∷ x) (s ∷ xs)) _ (plus z 1 ∷ s) _ row
        (rows-Leads k (plus z 1) (plus-plus z 1 (suc k) ∙ ap (plus z) (omega arith) ∙ e) h)

rows_all :
    (l : ArrayInfo) (ls : List ArrayInfo) (s : List ℤ) (xs : List (List ℤ)) (n : ℕ) (z : ℤ)
    → 1 ≤ n
    → plus z n ≡ plus (lower l) l.elements
    → Leads ls (s ∷ xs) (s, true)
    → (r : List (List ℤ)) × (prefix_all (range z n) (s ∷ xs) ≡ (z ∷ s) ∷ r)
      × Leads (l ∷ ls) ((z ∷ s) ∷ r) (lower l ∷ s, true)
unfolding range prefix_all
rows_all l ls s xs zero z h e k = absurd (omega arith)
rows_all l ls s xs (suc n) z h e k = (
  map (λ x. z ∷ x) xs ++ prefix_all (range (plus z 1) n) (s ∷ xs),
  refl,
  rows-Leads l ls s xs n z e k,
)

-- Every dimension has an element.
abbrev Inhabited : List ArrayInfo → Type 0
Inhabited [] = Unit {0}
Inhabited (l ∷ ls) = (1 ≤ l.elements) × Inhabited ls

-- The indices start with the lower bounds, and lead back to them.
all_indices-Leads :
    (ls : List ArrayInfo)
    → Inhabited ls
    → (xs : List (List ℤ)) × (all_indices ls ≡ start ls ∷ xs)
      × Leads ls (start ls ∷ xs) (start ls, true)
unfolding all_indices advance
all_indices-Leads [] h = ([], refl, refl)
all_indices-Leads (l ∷ ls) (h, hs) =
    let (xs, e, k) = all_indices-Leads ls hs in
    let (r, f, j) = rows_all l ls (start ls) xs l.elements (lower l) h refl k in (r, rw e f, j)

-- The elements have the indices that lead from one to the next.
indices_from :
    (lv : List ArrayInfo) (size n : ℕ) (x : List ℤ) (xs : List (List ℤ)) (end : List ℤ × Bool)
    → Leads lv (x ∷ xs) end
    → map (λ (e : Element). e.indices) (elements_from lv size (suc (length xs)) n x) ≡ x ∷ xs
unfolding elements_from
indices_from lv size n x [] end h = refl
indices_from lv size n x (y ∷ xs) end (h, hs) =
    ap (λ t. x ∷ t) (rw h (indices_from lv size (n + 1) y xs end hs))

length-range : (z : ℤ) (n : ℕ) → length (range z n) ≡ n
unfolding range
length-range z zero = refl
length-range z (suc n) = ap suc (length-range (plus z 1) n)

length-prefix_all :
    (is : List ℤ) (xs : List (List ℤ)) → length (prefix_all is xs) ≡ length is * length xs
unfolding prefix_all
length-prefix_all [] xs = omega arith
length-prefix_all (i ∷ is) xs = grind (
  arith,
  length-append (map (λ x. i ∷ x) xs) (prefix_all is xs),
  length-map (λ x. i ∷ x) xs,
  length-prefix_all is xs,
)

element_count_next :
    (l : ArrayInfo) (ls : List ArrayInfo) (t : ℕ) {n : ℕ}
    → element_count t (l ∷ ls) ≡ some n
    → (1 ≤ l.elements)
      × (t * l.elements ≤ max_array_elements)
      × (element_count (t * l.elements) ls ≡ some n)
unfolding element_count
element_count_next l ls t {n} e = ground arith

element_count_cap :
    (ls : List ArrayInfo) (t : ℕ) {n : ℕ}
    → t ≤ max_array_elements
    → element_count t ls ≡ some n
    → n ≤ max_array_elements
unfolding element_count
element_count_cap [] t h e = ground arith
element_count_cap (l ∷ ls) t h e =
    let (_, k, f) = element_count_next l ls t e in element_count_cap ls (t * l.elements) k f

-- A count that is accepted is the number of indices, and every dimension has an element.
element_count_lem :
    (ls : List ArrayInfo) (t : ℕ) {n : ℕ}
    → element_count t ls ≡ some n
    → (n ≡ t * length (all_indices ls)) × Inhabited ls
unfolding element_count all_indices
element_count_lem [] t e = (ground arith, tt)
element_count_lem (l ∷ ls) t {n} e =
    let (h, _, k) = element_count_next l ls t e in
    let (i, j) = element_count_lem ls (t * l.elements) k in
    (
      i
          ∙ mul_assoc t l.elements _
          ∙ ap (λ m. t * m)
              (sym (
                length-prefix_all (range (lower l) l.elements) (all_indices ls)
                ∙ ap (λ m. m * length (all_indices ls)) (length-range (lower l) l.elements))),
      (h, j),
    )

-- The offsets are multiples of the size of an element.
abbrev pub multiples : ℕ → ℕ → ℕ → List ℕ
multiples size zero n = []
multiples size (suc count) n = n * size ∷ multiples size count (n + 1)

offset_exact : (n size : ℕ) → n < 2 ^ 32 → n * size < 2 ^ 32 → n % 2 ^ 32 * size % 2 ^ 32 ≡ n * size
offset_exact n size h k = let e : n % 2 ^ 32 ≡ n = omega arith in rw e (omega arith)

offsets_from :
    (lv : List ArrayInfo) (size count n : ℕ) (x : List ℤ)
    → n + count ≤ max_array_elements
    → (n + count) * size < 2 ^ 32
    → map (λ (e : Element). e.offs) (elements_from lv size count n x) ≡ multiples size count n
unfolding elements_from
offsets_from lv size zero n x h k = refl
offsets_from lv size (suc count) n x h k = rw (
  offset_exact n size (omega arith) (omega arith),
  offsets_from lv size count (n + 1) (advance lv x).0 (omega arith) (omega arith),
)

-- Where an array has dimensions, is accepted by `element_count` and has a size of 32 bits, its
-- elements are as many as it counts, their indices are those of all dimensions in lexicographic
-- order from the lower bounds, each dimension with as many as it has elements, and the offsets
-- are the multiples of the quotient of the size and the count.
pub make_array_elements_lem :
    (l : ArrayInfo) (ls : List ArrayInfo) (size : ℕ) {total : ℕ}
    → element_count 1 (l ∷ ls) ≡ some total
    → size < 2 ^ 32
    → (map (λ (e : Element). e.indices) (make_array_elements (l ∷ ls) size).0
        ≡ all_indices (l ∷ ls))
      × (length (all_indices (l ∷ ls)) ≡ total)
      × (map (λ (e : Element). e.offs) (make_array_elements (l ∷ ls) size).0
          ≡ multiples (size / total) total 0)
unfolding make_array_elements
make_array_elements_lem l ls size {total} e h =
    let (count, inhabited) = element_count_lem (l ∷ ls) 1 e in
    let (xs, all, leads) = all_indices-Leads (l ∷ ls) inhabited in
    let cap : total ≤ max_array_elements = element_count_cap (l ∷ ls) 1 (omega arith) e in
    let long : suc (length xs) ≡ total = sym (ap length all) ∙ omega arith in
    (
      rw (e, make_array_elements, ← long) (indices_from (l ∷ ls) _ 0 _ xs _ leads ∙ sym all),
      omega arith,
      rw (e, make_array_elements)
          (offsets_from (l ∷ ls) (size / total) total 0 (start (l ∷ ls)) (omega arith)
            (let fits : size / total * total ≤ size = div-mul-le_self size total in omega arith)),
    )
