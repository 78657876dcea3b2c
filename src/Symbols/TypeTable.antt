-- ===== src/Symbols/TypeTable.antt =====
-- The uploaded table of types: `decodeSymbolUploadDataType` and `parseUploadSymbolInfoDataTypes`.
-- The fuel is the number of bytes: each type is read from fewer bytes than the one that it is a
-- member of, and takes at least forty-two.
pub mod Laws
use go_ads.Common.{
  ℕ, zero, suc, ◌-◌, List, [], ◌∷◌, Bytes, length, take, drop, ltb, ◌==◌, if◌then◌else◌, Result, ok,
  err, malformed, ◌>>=◌,
}
use go_ads.Common.Dict.{Dict, Bytes-Key, eq_text, insert}
use go_ads.Common.Words.{get_le}
use go_ads.Symbols.Entry.{c_string, normalize_string_data_type, Texts, get_texts}
use go_ads.Symbols.Tree.{DataTypeEntry, TypeInfo, DataType, type_, DataTypes, end, member}
use go_ads.Symbols.Array.{ArrayInfo, Element, element_name, make_array_elements}

unfoldable pub get_data_type_entry : Bytes → Result (DataTypeEntry × Bytes)
get_data_type_entry bs = do
  (entry_length, r1) ← get_le 4 bs
  (version, r2) ← get_le 4 r1
  (hash_value, r3) ← get_le 4 r2
  (type_hash_value, r4) ← get_le 4 r3
  (size, r5) ← get_le 4 r4
  (offs, r6) ← get_le 4 r5
  (data_type, r7) ← get_le 4 r6
  (flags, r8) ← get_le 4 r7
  (name_length, r9) ← get_le 2 r8
  (type_length, r10) ← get_le 2 r9
  (comment_length, r11) ← get_le 2 r10
  (array_dim, r12) ← get_le 2 r11
  (sub_items, rest) ← get_le 2 r12
  ok (
    record {
      entry_length = entry_length;
      version = version;
      hash_value = hash_value;
      type_hash_value = type_hash_value;
      size = size;
      offs = offs;
      data_type = data_type;
      flags = flags;
      name_length = name_length;
      type_length = type_length;
      comment_length = comment_length;
      array_dim = array_dim;
      sub_items = sub_items;
    },
    rest,
  )

unfoldable pub get_type_head : Bytes → Result ((DataTypeEntry × Texts) × Bytes)
unfolding get_data_type_entry get_texts
get_type_head bs = do
  (entry, r1) ← get_data_type_entry bs
  (texts, rest) ← get_texts entry.name_length entry.type_length entry.comment_length r1
  ok ((entry, texts), rest)

abbrev pub type_info : DataTypeEntry → Texts → TypeInfo
type_info entry texts = record {
  entry = entry;
  name = c_string texts.name;
  data_type = normalize_string_data_type (c_string texts.data_type);
  comment = c_string texts.comment;
}

unfoldable pub get_levels : ℕ → Bytes → Result (List ArrayInfo)
get_levels zero bs = ok []
get_levels (suc n) bs = do
  (lbound, r1) ← get_le 4 bs
  (elements, r2) ← get_le 4 r1
  levels ← get_levels n r2
  ok (record { lbound = lbound; elements = elements } ∷ levels)

-- The type of an element: all but its name, its type, its offset and its size is zero.
abbrev pub element_type : Bytes → ℕ → Element → DataType
element_type data_type elem_size e =
    type_
      (record {
        entry = record {
          entry_length = 0;
          version = 0;
          hash_value = 0;
          type_hash_value = 0;
          size = elem_size;
          offs = e.offs;
          data_type = 0;
          flags = 0;
          name_length = 0;
          type_length = 0;
          comment_length = 0;
          array_dim = 0;
          sub_items = 0;
        };
        name = element_name e;
        data_type = data_type;
        comment = [];
      })
      end

unfoldable pub element_types : Bytes → ℕ → List Element → DataTypes
element_types data_type elem_size [] = end
element_types data_type elem_size (e ∷ es) =
    member (element_type data_type elem_size e) (element_types data_type elem_size es)

abbrev pub name_of_type : DataType → Bytes
name_of_type (type_ info _) = info.name

-- `header.Children[child.Name] = &child`
unfoldable pub put_member : DataType → DataTypes → DataTypes
put_member child end = member child end
put_member child (member other rest) =
    let later = put_member child rest in
    if eq_text (name_of_type other) (name_of_type child)
    then member child rest
    else member other later

-- The decoding of a type from fewer bytes is an argument.
unfoldable pub sub_items :
    (Bytes → Result (DataType × Bytes)) → ℕ → Bytes → DataTypes → Result DataTypes
sub_items decode zero bs members = ok members
sub_items decode (suc n) bs members = elim (decode bs) [
  | err e ↦ err e
  | ok (child, rest) ↦ sub_items decode n rest (put_member child members)
]

unfoldable pub members_from :
    (Bytes → Result (DataType × Bytes)) → DataTypeEntry → Bytes → Bytes → Result DataTypes
members_from decode entry data_type bs =
    let array = get_levels entry.array_dim bs in
    let items = sub_items decode entry.sub_items bs end in
    if ltb 0 entry.array_dim
    then (elim array [
      | err e ↦ err e
      | ok levels ↦
          let (elements, elem_size) = make_array_elements levels entry.size in
          ok (element_types data_type elem_size elements)
    ])
    else items

-- What is made of the members that are read from the next `child_length` bytes.
unfoldable pub close_type : TypeInfo → ℕ → Bytes → Result DataTypes → Result (DataType × Bytes)
close_type info child_length bs members =
    if child_length == 0
    then ok (type_ info end, bs)
    else if ltb (length bs) child_length
    then err malformed
    else (elim members [ err e ↦ err e | ok ms ↦ ok (type_ info ms, drop child_length bs) ])

unfoldable pub decode_with : (Bytes → Result (DataType × Bytes)) → Bytes → Result (DataType × Bytes)
unfolding get_type_head members_from close_type
decode_with decode bs = if ltb (length bs) 48 then err malformed else (elim (get_type_head bs) [
  | err e ↦ err e
  | ok ((entry, texts), rest) ↦
      let info = type_info entry texts in
      let child_length = entry.entry_length - (length bs - length rest) in
      close_type info child_length rest
        (members_from decode entry info.data_type (take child_length rest))
])

unfoldable pub decode_symbol_upload_data_type : ℕ → Bytes → Result (DataType × Bytes)
unfolding decode_with
decode_symbol_upload_data_type zero bs = err malformed
decode_symbol_upload_data_type (suc fuel) bs = decode_with (decode_symbol_upload_data_type fuel) bs

unfoldable pub parse_data_types : ℕ → Bytes → Dict Bytes DataType → Result (Dict Bytes DataType)
parse_data_types fuel [] types = ok types
parse_data_types zero (b ∷ bs) types = err malformed
parse_data_types (suc fuel) (b ∷ bs) types =
    elim (decode_symbol_upload_data_type (length (b ∷ bs)) (b ∷ bs)) [
      | err e ↦ err e
      | ok (t, rest) ↦ parse_data_types fuel rest (insert (name_of_type t) t types)
    ]

unfoldable pub parse_upload_symbol_info_data_types : Bytes → Result (Dict Bytes DataType)
parse_upload_symbol_info_data_types bs = parse_data_types (length bs) bs []
