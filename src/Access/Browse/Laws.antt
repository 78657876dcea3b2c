-- ===== src/Access/Browse/Laws.antt =====
-- browse.go: the order and the number of the entries.
use go_ads.Common.{
  ℕ, suc, ◌≡◌, refl, ap, ◌∙◌, true, false, ◌==◌, List, [], ◌∷◌, ◌++◌, Bytes, length, Option, none,
  some, arith, Bool-cases, inl, inr, Option-cases, ◌⊎◌,
}
use go_ads.Common.Dict.{Dict, Bytes-Key, lookup}
use go_ads.Access.BatchResult.{is_before}
use mathlib.Core.Path.{subst}
use go_ads.Access.Browse.{
  Shown, Node, Leaf, Types, insert_shown, sort_shown, root_entries, browse_root, child_entries,
  next_entries, or_itself, browse_children, browse_symbols,
}

is_before_asym : (x y : Bytes) → is_before x y ≡ true → is_before y x ≡ false
unfolding is_before
is_before_asym [] [] h = refl
is_before_asym [] (y ∷ ys) h = refl
is_before_asym (x ∷ xs) [] h = cc
is_before_asym (x ∷ xs) (y ∷ ys) h = ground (arith, is_before_asym xs ys)

-- None stands after one with a later name.
unfoldable IsSorted : List Shown → Type 0
IsSorted [] = Unit {0}
IsSorted (e ∷ []) = Unit {0}
IsSorted (e ∷ f ∷ fs) = (is_before f.full_name e.full_name ≡ false) × IsSorted (f ∷ fs)

-- Before an entry whose name is not later, a sorted list stays sorted.
after_head :
    (e f : Shown) (fs : List Shown)
    → is_before f.full_name e.full_name ≡ true
    → IsSorted (f ∷ fs)
    → IsSorted (insert_shown e fs)
    → IsSorted (f ∷ insert_shown e fs)
unfolding IsSorted insert_shown
after_head e f [] h s t = (is_before_asym f.full_name e.full_name h, tt)
after_head e f (g ∷ gs) h (k, s) t = elim (Bool-cases (is_before g.full_name e.full_name)) [
  | inl q ↦ let t' : IsSorted (g ∷ insert_shown e gs) = rw q at t in rw q (k, t')
  | inr q ↦
      let t' : IsSorted (e ∷ g ∷ gs) = rw q at t in
      rw q (is_before_asym f.full_name e.full_name h, t')
]

insert_shown-IsSorted : (e : Shown) (fs : List Shown) → IsSorted fs → IsSorted (insert_shown e fs)
unfolding IsSorted insert_shown
insert_shown-IsSorted e [] s = tt
insert_shown-IsSorted e (f ∷ []) s = elim (Bool-cases (is_before f.full_name e.full_name)) [
  | inl q ↦ rw q (is_before_asym f.full_name e.full_name q, tt)
  | inr q ↦ rw q (q, tt)
]
insert_shown-IsSorted e (f ∷ g ∷ gs) s = elim (Bool-cases (is_before f.full_name e.full_name)) [
  | inl q ↦ rw q (after_head e f (g ∷ gs) q s (insert_shown-IsSorted e (g ∷ gs) s.1))
  | inr q ↦ rw q (q, s)
]

sort_shown-IsSorted : (es : List Shown) → IsSorted (sort_shown es)
unfolding sort_shown IsSorted
sort_shown-IsSorted [] = tt
sort_shown-IsSorted (e ∷ es) = insert_shown-IsSorted e (sort_shown es) (sort_shown-IsSorted es)

length-insert_shown : (e : Shown) (fs : List Shown) → length (insert_shown e fs) ≡ suc (length fs)
unfolding insert_shown
length-insert_shown e [] = refl
length-insert_shown e (f ∷ fs) = ground (arith, length-insert_shown e fs)

length-sort_shown : (es : List Shown) → length (sort_shown es) ≡ length es
unfolding sort_shown
length-sort_shown [] = refl
length-sort_shown (e ∷ es) = length-insert_shown e (sort_shown es) ∙ ap suc (length-sort_shown es)

-- How many children the symbol at a path has.
unfoldable children_count : Option Node → ℕ
children_count none = 0
children_count (some n) = length n.children

module _ (symbol_key : Bytes → Bytes) (types : Types) (symbols : Dict Bytes Node) where
  length-child_entries :
      (ss : List Leaf) → length (child_entries symbol_key types symbols ss) ≡ length ss
  length-child_entries [] = refl
  length-child_entries (s ∷ ss) = ap suc (length-child_entries ss)

  abbrev Ordered : ℕ → List Shown → Type 0
  Ordered count shown = IsSorted shown × ((count ≡ 0) ⊎ (length shown ≡ count))

  children-Ordered :
      (ss : List Leaf) (below : List Shown)
      → IsSorted below
      → Ordered (length ss) (elim ss as (λ _. List Shown) [
        | [] ↦ below
        | s ∷ rest ↦ sort_shown (child_entries symbol_key types symbols (s ∷ rest))
      ])
  children-Ordered [] below b = (b, inl refl)
  children-Ordered (s ∷ rest) below b =
      let entries = child_entries symbol_key types symbols (s ∷ rest) in
      (
        sort_shown-IsSorted entries,
        inr (length-sort_shown entries ∙ length-child_entries (s ∷ rest)),
      )

  browse_children-Ordered :
      (path : Bytes)
      → Ordered
          (children_count (lookup (symbol_key path) symbols))
          (browse_children symbol_key types symbols path)
  unfolding browse_children children_count
  browse_children-Ordered path =
      let found = lookup (symbol_key path) symbols in
      let entries =
        or_itself symbol_key types symbols found
          (next_entries symbol_key types symbols (symbol_key path ++ (46 ∷ [])) symbols []) in
      let below = sort_shown-IsSorted entries in
      elim (Option-cases found) [
        | inl e ↦ rw (browse_children, children_count, e) (sort_shown-IsSorted _, inl refl)
        | inr (n, e) ↦
            rw (browse_children, children_count, e)
              (children-Ordered n.children _ (sort_shown-IsSorted _))
      ]

  -- Where a list of symbols is loaded, what is shown at a path is in the order of the full names;
  -- and unless the path is empty, or no symbol with children stands there, it is as many entries as
  -- the symbol has children.
  browse_symbols_lem :
      (path : Bytes) (shown : List Shown)
      → browse_symbols symbol_key types symbols true path ≡ some shown
      → IsSorted shown
        × ((length path ≡ 0)
            ⊎ ((children_count (lookup (symbol_key path) symbols) ≡ 0)
                ⊎ (length shown ≡ children_count (lookup (symbol_key path) symbols))))
  unfolding browse_symbols browse_root
  browse_symbols_lem path shown e = elim (Bool-cases (length path == 0)) [
    | inl f ↦
        let g : some (sort_shown (root_entries symbol_key types symbols symbols [])) ≡ some shown =
          rw f at e in
        let h : sort_shown (root_entries symbol_key types symbols symbols []) ≡ shown = cc in
        (subst IsSorted h (sort_shown-IsSorted _), inl (ground arith))
    | inr f ↦
        let g : some (browse_children symbol_key types symbols path) ≡ some shown = rw f at e in
        let h : browse_children symbol_key types symbols path ≡ shown = cc in
        let (sorted, count) =
          subst (Ordered (children_count (lookup (symbol_key path) symbols))) h
            (browse_children-Ordered path) in
        (sorted, inr count)
  ]
