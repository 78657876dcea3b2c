-- ===== src/Symbols/Tree.antt =====
-- The tree of a symbol: `addSymbol`, `addOffset`, `addOffsetDepth`, `isEnumDataType` and
-- `addChildren`. The children of a type and of a symbol are maps by their names, of which the model
-- has the entries; where Go iterates over them in any order, the model takes the order of the list.

pub mod Laws
use go_ads.Common.{
  ℕ, zero, suc, ◌+◌, Bool, true, false, ◌&&◌, not, Option, none, some, [], ◌∷◌, ◌++◌, Bytes, length,
  ltb, ◌==◌, if◌then◌else◌,
}
use go_ads.Common.Dict.{Dict, Bytes-Key, eq_text, lookup, has, insert}
use go_ads.Defs.{context_mask}
use go_ads.Codec.TypeName.{contains, parseable_types}
use go_ads.Symbols.Entry.{UploadSymbol}

-- datatypeEntry
pub record DataTypeEntry : Type 0 where
  pub entry_length : ℕ
  pub version : ℕ
  pub hash_value : ℕ
  pub type_hash_value : ℕ
  pub size : ℕ
  pub offs : ℕ
  pub data_type : ℕ
  pub flags : ℕ
  pub name_length : ℕ
  pub type_length : ℕ
  pub comment_length : ℕ
  pub array_dim : ℕ
  pub sub_items : ℕ

-- SymbolUploadDataType without its children
pub record TypeInfo : Type 0 where
  pub entry : DataTypeEntry
  pub name : Bytes
  pub data_type : Bytes
  pub comment : Bytes

mutual
  pub data DataType : Type 0 where
    type_ : TypeInfo → DataTypes → DataType

  pub data DataTypes : Type 0 where
    end : DataTypes
    member : DataType → DataTypes → DataTypes

-- The fields of `symbol` that come from the tables.
pub record SymbolInfo : Type 0 where
  pub name : Bytes
  pub full_name : Bytes
  pub data_type : Bytes
  pub comment : Bytes
  pub length_ : ℕ
  pub base_type : ℕ
  pub group : ℕ
  pub offset : ℕ
  pub flags : ℕ
  pub context_mask : ℕ

mutual
  pub data Node : Type 0 where
    node : SymbolInfo → Nodes → Node

  pub data Nodes : Type 0 where
    leaf : Nodes
    child : Node → Nodes → Nodes

abbrev pub info_of : Node → SymbolInfo
info_of (node info _) = info

abbrev pub members_of : DataType → DataTypes
members_of (type_ _ members) = members

unfoldable pub is_enum_data_type : DataType → Bool
is_enum_data_type (type_ info end) = false
is_enum_data_type (type_ info (member _ _)) =
    info.entry.array_dim == 0 && contains parseable_types info.data_type

-- `[` in front of a name makes it an element's.
unfoldable pub member_path : Bytes → Bytes → Bytes
member_path parent [] = parent
member_path parent (c ∷ name) =
    if c == b'[' then parent ++ (c ∷ name) else parent ++ (b'.' ∷ (c ∷ name))

abbrev pub member_info : Bytes → ℕ → TypeInfo → SymbolInfo
member_info parent group segment = record {
  name = segment.name;
  full_name = member_path parent segment.name;
  data_type = segment.data_type;
  comment = segment.comment;
  length_ = segment.entry.size;
  base_type = segment.entry.data_type;
  group = group;
  offset = segment.entry.offs;
  flags = 0;
  context_mask = 0;
}

abbrev pub add_offset_max_depth : ℕ
add_offset_max_depth = 256

-- What an expansion has to expand next: the members of the type, if it is in the table and no enum.
unfoldable pub expandable : Dict Bytes DataType → Bytes → DataTypes
expandable datatypes data_type = elim (lookup data_type datatypes) [
  | none ↦ end
  | some dt ↦ if is_enum_data_type dt then end else members_of dt
]

module _ (datatypes : Dict Bytes DataType) (group : ℕ) where
  -- The first number is the depth that is left, `addOffsetMaxDepth - depth`.
  unfoldable pub add_offset_depth : ℕ → Bytes → DataTypes → Nodes
  add_offset_depth zero parent members = leaf
  add_offset_depth (suc left) parent end = leaf
  add_offset_depth (suc left) parent (member (type_ segment _) rest) =
      let others = add_offset_depth (suc left) parent rest in
      let below =
        add_offset_depth left (member_path parent segment.name)
          (expandable datatypes segment.data_type) in
      if length segment.name == 0
      then others
      else child (node (member_info parent group segment) below) others

module _ (datatypes : Dict Bytes DataType) where
  unfoldable pub add_symbol : UploadSymbol → Node
  add_symbol s =
      let below : Nodes = elim (lookup s.data_type datatypes) [
        | none ↦ leaf
        | some dt ↦
            add_offset_depth datatypes s.entry.igroup add_offset_max_depth s.name (members_of dt)
      ] in
      node
        (record {
          name = s.name;
          full_name = s.name;
          data_type = s.data_type;
          comment = s.comment;
          length_ = s.entry.size;
          base_type = s.entry.data_type;
          group = s.entry.igroup;
          offset = s.entry.ioffs;
          flags = s.entry.flags;
          context_mask = context_mask s.entry.flags;
        })
        below

module _ (symbol_key : Bytes → Bytes) where
  unfoldable mutual
    pub add_children : Node → Dict Bytes Node → Dict Bytes Node
    add_children (node info below) symbols = add_all below symbols

    pub add_all : Nodes → Dict Bytes Node → Dict Bytes Node
    add_all leaf symbols = symbols
    add_all (child n rest) symbols =
        let key = symbol_key (info_of n).full_name in
        let with_n = add_children n (insert key n symbols) in
        let next = if has key symbols then symbols else with_n in add_all rest next
