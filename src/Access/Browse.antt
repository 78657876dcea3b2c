-- ===== src/Access/Browse.antt =====
-- browse.go: the entries that BrowseSymbols shows at a path. The symbol cache is in the order in
-- which Go happens to go through it; of the children of a symbol what is shown, and of theirs
-- whether there are any.
pub mod Laws
use go_ads.Common.{
  ℕ, ◌+◌, ◌==◌, leb, Bool, true, false, not, ◌&&◌, ◌||◌, List, [], ◌∷◌, ◌++◌, Bytes, length, take,
  drop, Option, none, some, if◌then◌else◌,
}
use go_ads.Common.Dict.{Dict, Bytes-Key, eq_text, lookup, has, insert}
use go_ads.Codec.TypeName.{contains, parseable_types}
use go_ads.Access.BatchResult.{is_before}

pub record Leaf : Type 0 where
  pub name : Bytes
  pub full_name : Bytes
  pub data_type : Bytes
  pub size : ℕ
  pub comment : Bytes
  pub is_expanded : Bool  -- has Children

pub record Node : Type 0 where
  pub own : Leaf
  pub has_parent : Bool
  pub children : List Leaf

-- SymbolBrowseEntry
pub record Shown : Type 0 where
  pub name : Bytes
  pub full_name : Bytes
  pub data_type : Bytes
  pub size : ℕ
  pub has_children : Bool
  pub comment : Bytes

-- The datatype table, if it is loaded: whether a type has children.
abbrev pub Types : Type 0
Types = Option (Dict Bytes Bool)

unfoldable pub looks_like_struct : Bytes → Bool
looks_like_struct data_type =
    not (length data_type == 0) && not (contains parseable_types data_type)

unfoldable pub symbol_has_children : Types → Leaf → Bool
unfolding looks_like_struct
symbol_has_children types s = if s.is_expanded then true else elim types [
  | none ↦ looks_like_struct s.data_type
  | some table ↦ elim (lookup s.data_type table) [
    | none ↦ looks_like_struct s.data_type
    | some b ↦ b
  ]
]

abbrev pub shown_as : Bool → Leaf → Shown
shown_as has_children s = record {
  name = s.name;
  full_name = s.full_name;
  data_type = s.data_type;
  size = s.size;
  has_children = has_children;
  comment = s.comment;
}

abbrev pub virtual : Bytes → Bytes → Shown
virtual name full_name = record {
  name = name;
  full_name = full_name;
  data_type = [];
  size = 0;
  has_children = true;
  comment = [];
}

-- What stands before the first dot.
unfoldable pub before_dot : Bytes → Option Bytes
before_dot [] = none
before_dot (c ∷ s) =
    let rest = before_dot s in
    if c == 46 then some [] else elim rest [ none ↦ none | some segment ↦ some (c ∷ segment) ]

unfoldable pub without_prefix : Bytes → Bytes → Option Bytes
without_prefix [] s = some s
without_prefix (c ∷ p) [] = none
without_prefix (c ∷ p) (d ∷ s) = let rest = without_prefix p s in if c == d then rest else none

unfoldable pub insert_shown : Shown → List Shown → List Shown
insert_shown e [] = e ∷ []
insert_shown e (f ∷ fs) =
    let rest = insert_shown e fs in
    if is_before f.full_name e.full_name then f ∷ rest else e ∷ f ∷ fs

-- `slices.SortFunc`, which leaves the order of equal names open
unfoldable pub sort_shown : List Shown → List Shown
sort_shown [] = []
sort_shown (e ∷ es) = insert_shown e (sort_shown es)

module _ (symbol_key : Bytes → Bytes) (types : Types) (symbols : Dict Bytes Node) where
  -- The entry for the first segment of a symbol that has others.
  unfoldable pub root_entry : Bytes → Leaf → Shown
  root_entry root s =
      let shown =
        if leb (length root) (length s.full_name) then take (length root) s.full_name else root in
      elim (lookup (symbol_key root) symbols) [
        | some n ↦ shown_as true n.own
        | none ↦ virtual shown shown
      ]

  -- The loop of browseRoot over the cache, with the segments that were seen.
  unfoldable pub root_entries : Dict Bytes Node → Dict Bytes (Unit {0}) → List Shown
  unfolding root_entry symbol_has_children before_dot
  root_entries [] seen = []
  root_entries ((key, n) ∷ rest) seen =
      let root : Bytes = elim (before_dot key) [ none ↦ key | some segment ↦ segment ] in
      let entry : Shown = elim (before_dot key) [
        | none ↦ shown_as (symbol_has_children types n.own) n.own
        | some segment ↦ root_entry segment n.own
      ] in
      let is_new = not n.has_parent && not (has root seen) in
      let later = root_entries rest (if is_new then insert root tt seen else seen) in
      if is_new then entry ∷ later else later

  unfoldable pub browse_root : List Shown
  browse_root = sort_shown (root_entries symbols [])

  abbrev pub child_entries : List Leaf → List Shown
  child_entries [] = []
  child_entries (s ∷ ss) = shown_as (symbol_has_children types s) s ∷ child_entries ss

  -- The entry for the next segment below the prefix.
  unfoldable pub next_entry : Bytes → Bytes → Leaf → Shown
  next_entry prefix segment s =
      let end = length prefix + length segment in
      elim (lookup (symbol_key (prefix ++ segment)) symbols) [
        | some n ↦ shown_as (symbol_has_children types n.own) n.own
        | none ↦
            if leb end (length s.full_name)
            then virtual (drop (length prefix) (take end s.full_name)) (take end s.full_name)
            else virtual segment (prefix ++ segment)
      ]

  unfoldable pub next_entries : Bytes → Dict Bytes Node → Dict Bytes (Unit {0}) → List Shown
  unfolding next_entry without_prefix before_dot
  next_entries prefix [] seen = []
  next_entries prefix ((key, n) ∷ rest) seen =
      let below = without_prefix prefix key in
      let tail : Bytes = elim below [ none ↦ [] | some s ↦ s ] in
      let segment : Bytes = elim (before_dot tail) [ none ↦ tail | some s ↦ s ] in
      let is_new : Bool = elim below [
        | none ↦ false
        | some _ ↦ not (has (prefix ++ segment) seen)
      ] in
      let later =
        next_entries prefix rest (if is_new then insert (prefix ++ segment) tt seen else seen) in
      if is_new then next_entry prefix segment n.own ∷ later else later

  -- The symbol itself, where nothing is below it.
  abbrev pub or_itself : Option Node → List Shown → List Shown
  or_itself (some n) [] = shown_as false n.own ∷ []
  or_itself found entries = entries

  unfoldable pub browse_children : Bytes → List Shown
  unfolding next_entries
  browse_children path =
      let found = lookup (symbol_key path) symbols in
      let below =
        sort_shown (or_itself found (next_entries (symbol_key path ++ (46 ∷ [])) symbols [])) in
      elim found [
        | none ↦ below
        | some n ↦ elim n.children [ [] ↦ below | s ∷ ss ↦ sort_shown (child_entries (s ∷ ss)) ]
      ]

  -- None where no list of symbols is loaded.
  unfoldable pub browse_symbols : Bool → Bytes → Option (List Shown)
  unfolding browse_root browse_children
  browse_symbols is_loaded path =
      if not is_loaded
      then none
      else if length path == 0
      then some browse_root
      else some (browse_children path)
