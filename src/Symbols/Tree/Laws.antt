-- ===== src/Symbols/Tree/Laws.antt =====
-- The expansion of a datatype is bounded whatever the table, and names each member by its parent.
use go_ads.Common.{
  ℕ, zero, suc, ◌≤◌, ◌≡◌, refl, true, some, Bytes, length, ltb, ◌==◌, if◌then◌else◌, arith, if-both,
  Bool-cases, Option-cases, inl, inr,
}
use go_ads.Common.Dict.{
  Dict, Bytes-Key, lookup, has, insert, lookup-insert_self, has_present, lookup-insert_new,
  lookup_present,
}
use go_ads.Symbols.Entry.{UploadSymbol}
use go_ads.Symbols.Tree.{
  DataType, type_, DataTypes, end, member, Node, node, Nodes, leaf, child, info_of, member_path,
  expandable, add_offset_depth, add_offset_max_depth, add_symbol, members_of, add_children, add_all,
}

abbrev pub below_of : Node → Nodes
below_of (node _ below) = below

abbrev mutual
  pub height : Node → ℕ
  height (node _ below) = suc (heights below)

  pub heights : Nodes → ℕ
  heights leaf = 0
  heights (child n rest) =
      let here = height n in let others = heights rest in if ltb here others then others else here

-- Each member is named by its parent and is in its group, down to the leaves.
abbrev mutual
  pub Named : Bytes → ℕ → Node → Type 0
  Named parent group (node info below) =
      (info.full_name ≡ member_path parent info.name)
      × (info.group ≡ group)
      × AllNamed info.full_name group below

  pub AllNamed : Bytes → ℕ → Nodes → Type 0
  AllNamed parent group leaf = Unit {0}
  AllNamed parent group (child n rest) = Named parent group n × AllNamed parent group rest

module _ (datatypes : Dict Bytes DataType) (group : ℕ) where
  add_offset_depth-height :
      (left : ℕ) (parent : Bytes) (members : DataTypes)
      → heights (add_offset_depth datatypes group left parent members) ≤ left
  unfolding add_offset_depth
  add_offset_depth-height zero parent members = omega arith
  add_offset_depth-height (suc left) parent end = omega arith
  add_offset_depth-height (suc left) parent (member (type_ segment below) rest) =
      if-both (λ ns. heights ns ≤ suc left) (length segment.name == 0)
        (add_offset_depth-height (suc left) parent rest)
        (ground (
          arith,
          add_offset_depth-height (suc left) parent rest,
          add_offset_depth-height left (member_path parent segment.name)
              (expandable datatypes segment.data_type),
        ))

  add_offset_depth-AllNamed :
      (left : ℕ) (parent : Bytes) (members : DataTypes)
      → AllNamed parent group (add_offset_depth datatypes group left parent members)
  unfolding add_offset_depth
  add_offset_depth-AllNamed zero parent members = tt
  add_offset_depth-AllNamed (suc left) parent end = tt
  add_offset_depth-AllNamed (suc left) parent (member (type_ segment below) rest) =
      if-both (AllNamed parent group) (length segment.name == 0)
        (add_offset_depth-AllNamed (suc left) parent rest)
        (
          (
            refl,
            refl,
            add_offset_depth-AllNamed left (member_path parent segment.name)
                (expandable datatypes segment.data_type),
          ),
          add_offset_depth-AllNamed (suc left) parent rest,
        )

module _ (datatypes : Dict Bytes DataType) (s : UploadSymbol) where
  -- Whatever the table of types, with cycles or without, the tree of a symbol has at most 257
  -- levels, and below the symbol each member is named by its parent and lies in the symbol's group.
  pub add_symbol_lem :
      (height (add_symbol datatypes s) ≤ 257)
      × AllNamed s.name s.entry.igroup (below_of (add_symbol datatypes s))
  unfolding add_symbol
  add_symbol_lem = elim (Option-cases (lookup s.data_type datatypes)) [
    | inl e ↦ rw e (omega arith, tt)
    | inr (dt, e) ↦ rw e (
      omega (
        arith,
        add_offset_depth-height datatypes s.entry.igroup add_offset_max_depth s.name
            (members_of dt),
      ),
      add_offset_depth-AllNamed datatypes s.entry.igroup add_offset_max_depth s.name
          (members_of dt),
    )
  ]

module _ (symbol_key : Bytes → Bytes) where
  abbrev key : Node → Bytes
  key n = symbol_key (info_of n).full_name

  mutual
    unfolding add_children

    pub add_children_keeps :
        (n : Node) (k : Bytes) (d : Dict Bytes Node) {v : Node}
        → lookup k d ≡ some v
        → lookup k (add_children symbol_key n d) ≡ some v
    add_children_keeps (node info below) k d e = add_all_keeps below k d e

    pub add_all_keeps :
        (ns : Nodes) (k : Bytes) (d : Dict Bytes Node) {v : Node}
        → lookup k d ≡ some v
        → lookup k (add_all symbol_key ns d) ≡ some v
    add_all_keeps leaf k d e = e
    add_all_keeps (child n rest) k d {v} e =
        add_all_keeps rest k _ (elim (Bool-cases (has (key n) d)) [
          | inl f ↦ rw f e
          | inr f ↦
              rw f
                (add_children_keeps n k (insert (key n) n d) (lookup-insert_new k (key n) n d f e))
        ])

  -- The entries of a list of members are on file.
  abbrev pub OnFile : Dict Bytes Node → Nodes → Type 0
  OnFile d leaf = Unit {0}
  OnFile d (child n rest) = (has (key n) d ≡ true) × OnFile d rest

  stays :
      (ns : Nodes) (k : Bytes) (d : Dict Bytes Node)
      → has k d ≡ true
      → has k (add_all symbol_key ns d) ≡ true
  stays ns k d h =
      let (v, e) = lookup_present k d h in
      has_present k (add_all symbol_key ns d) v (add_all_keeps ns k d e)

  abbrev next : Node → Dict Bytes Node → Dict Bytes Node
  next n d =
      let with_n = add_children symbol_key n (insert (key n) n d) in
      if has (key n) d then d else with_n

  has-next : (n : Node) (d : Dict Bytes Node) → has (key n) (next n d) ≡ true
  has-next n d = elim (Bool-cases (has (key n) d)) [
    | inl f ↦ rw (next, f) f
    | inr f ↦
        rw (next, f)
          (has_present (key n) _ n
            (add_children_keeps n (key n) (insert (key n) n d) (lookup-insert_self (key n) n d)))
  ]

  add_all-OnFile : (ns : Nodes) (d : Dict Bytes Node) → OnFile (add_all symbol_key ns d) ns
  unfolding add_children
  add_all-OnFile leaf d = tt
  add_all-OnFile (child n rest) d =
      (stays rest (key n) (next n d) (has-next n d), add_all-OnFile rest (next n d))

  -- To file the members of a symbol replaces nothing that is on file and leaves each of its members
  -- on file, under the key of its full name.
  pub add_children_lem :
      (n : Node) (k : Bytes) (d : Dict Bytes Node) {v : Node}
      → lookup k d ≡ some v
      → (lookup k (add_children symbol_key n d) ≡ some v)
        × OnFile (add_children symbol_key n d) (below_of n)
  unfolding add_children
  add_children_lem (node info below) k d e = (add_all_keeps below k d e, add_all-OnFile below d)
