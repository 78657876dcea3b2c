-- ===== src/Symbols/Samples.antt =====
-- The laws of the symbol tables at concrete tables.
use go_ads.Common.{◌-◌, ◌^◌, ◌≤◌, ◌≡◌, refl, [], ◌∷◌, Bytes, length, arith, ok}
use mathlib.Core.List.{map}
use go_ads.Common.Dict.{Dict}
use go_ads.Common.Int64.{lez}
use go_ads.Symbols.Entry.{SymbolEntry, UploadSymbol}
use go_ads.Symbols.Entry.Laws.{Upload}
use go_ads.Symbols.Tree.{DataTypeEntry, DataType, type_, end, member, add_symbol}
use go_ads.Symbols.Tree.Laws.{height, AllNamed, below_of, add_symbol_lem}
use go_ads.Symbols.Table.{
  parse_upload_symbol_info_symbols, put_table, filed, parse_upload-put_table,
}
use go_ads.Symbols.Array.{ArrayInfo, Element, plus, element_count, make_array_elements}
use go_ads.Symbols.Array.Laws.{all_indices, multiples, make_array_elements_lem}

abbrev node_text : Bytes
node_text = b'N' ∷ []

abbrev next_text : Bytes
next_text = b'x' ∷ []

abbrev sizes : DataTypeEntry
sizes = record {
  entry_length = 0;
  version = 0;
  hash_value = 0;
  type_hash_value = 0;
  size = 8;
  offs = 0;
  data_type = 65;
  flags = 0;
  name_length = 1;
  type_length = 1;
  comment_length = 0;
  array_dim = 0;
  sub_items = 1;
}

-- A type with a member of its own type.
abbrev cyclic : Dict Bytes DataType
cyclic =
    (
      node_text,
      type_ (record { entry = sizes; name = node_text; data_type = []; comment = [] })
          (member
            (type_ (record { entry = sizes; name = next_text; data_type = node_text; comment = [] })
              end)
            end),
    )
    ∷ []

abbrev head : SymbolEntry
head = record {
  entry_length = 39;
  igroup = 0x4020;
  ioffs = 16;
  size = 8;
  data_type = 65;
  flags = 0;
  name_length = 3;
  type_length = 1;
  comment_length = 0;
}

abbrev list_upload : Upload
list_upload = record {
  entry = head;
  texts = record { name = b'G' ∷ b'.' ∷ b'l' ∷ []; data_type = node_text; comment = [] };
  padding = 0 ∷ 0 ∷ [];
}

abbrev list_symbol : UploadSymbol
list_symbol = record {
  entry = head;
  name = b'G' ∷ b'.' ∷ b'l' ∷ [];
  data_type = node_text;
  comment = [];
}

add_symbol_lem_example :
    (height (add_symbol cyclic list_symbol) ≤ 257)
    × AllNamed (b'G' ∷ b'.' ∷ b'l' ∷ []) 0x4020 (below_of (add_symbol cyclic list_symbol))
add_symbol_lem_example = add_symbol_lem cyclic list_symbol

parse_upload-put_table_example :
    parse_upload_symbol_info_symbols (λ s. s) cyclic (put_table (λ s. s) cyclic (list_upload ∷ []))
    ≡ ok (filed (λ s. s) cyclic (list_upload ∷ []) [])
parse_upload-put_table_example =
    parse_upload-put_table (λ s. s) cyclic (list_upload ∷ [])
      (
        (
          (
            (omega arith, omega arith, omega arith),
            (omega arith, omega arith, omega arith),
            (omega arith, omega arith, omega arith),
          ),
          (refl, refl, refl),
          refl,
        ),
        tt,
      )

-- ARRAY [-1..0, 1..3]
abbrev outer : ArrayInfo
outer = record { lbound = 2 ^ 32 - 1; elements = 2 }

abbrev inner : ArrayInfo
inner = record { lbound = 1; elements = 3 }

make_array_elements_lem_example :
    (map (λ (e : Element). e.indices) (make_array_elements (outer ∷ inner ∷ []) 24).0
      ≡ all_indices (outer ∷ inner ∷ []))
    × (length (all_indices (outer ∷ inner ∷ [])) ≡ 6)
    × (map (λ (e : Element). e.offs) (make_array_elements (outer ∷ inner ∷ []) 24).0
        ≡ multiples 4 6 0)
unfolding element_count lez plus
make_array_elements_lem_example = make_array_elements_lem outer (inner ∷ []) 24 refl (omega arith)
