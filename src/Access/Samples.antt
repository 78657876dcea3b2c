-- ===== src/Access/Samples.antt =====
-- The laws of the access by name at concrete caches.
use go_ads.Common.{ℕ, ◌≡◌, refl, true, ◌||◌, [], ◌∷◌, Bytes, All, none, Result, ok, err, transport}
use go_ads.Common.Dict.{Dict, Bytes-Key, has, lookup, IsDict}
use go_ads.Codec.TypeName
use go_ads.Codec.Scalar.{TextForm, Forms}
use go_ads.Client.Conn.{Conn, unchecked}
use go_ads.Common.Dict.{eq_text}
use go_ads.Common.Words.{get_le}
use go_ads.Client.Rpc.{write_read}
use go_ads.Client.Wire.{parse_data_response}
use go_ads.Client.Sum.Layout.{total_read_length, codes, parse_sum_read_response}
use go_ads.Client.Sum.Read.{sum_read, response_total}
use go_ads.Symbols.Entry.{get_symbol_entry}
use go_ads.Access.Resolve.{get_symbol, require_client, get_symbol_info_by_name}
use go_ads.Common.Decimal.{parse_int}
use go_ads.Codec.Scalar
use go_ads.Codec.{write_to_node}
use go_ads.Client.Sum.Write.{sum_write}
use go_ads.Access.BatchResult.{is_listed, insert_item}
use go_ads.Access.Cache.{Cached, Shared, nil_symbol}
use go_ads.Access.Read.{read_multiple_symbols, read_multiple_symbols_retry}
use go_ads.Access.Read.Laws.{read_multiple_symbols_lem}
use go_ads.Access.Write.{write_multiple_symbols, write_multiple_symbols_retry}
use go_ads.Access.Write.Codes.{is_written, names_of}
use go_ads.Access.Write.Laws.{write_multiple_symbols_lem}
use go_ads.Access.Accounts.{failed_items, is_call_failure}

abbrev same : Bytes → Bytes
same s = s

abbrev a : Bytes
a = b'a' ∷ []

abbrev b : Bytes
b = b'b' ∷ []

abbrev no_form : TextForm
no_form = record { print = λ n. []; scan = λ s. err transport }

abbrev forms : Forms
forms = record {
  real = no_form;
  lreal = no_form;
  time = no_form;
  tod = no_form;
  date = no_form;
  dt = no_form;
  utf16_decode = λ us. [];
  utf16_encode = λ s. [];
}

-- A variable of two bytes, which has a handle.
abbrev variable : Cached
variable = record nil_symbol {
  codec = record { data_type = TypeName.int; base_type = 2; size = 2 };
  handle = 5;
}

-- The cache knows the variable `a` only.
abbrev world : Shared (Unit {0})
world = record {
  plc = tt;
  now = 0;
  has_client = true;
  epoch = 0;
  symbols = (a, 0) ∷ [];
  on_demand_symbols = [];
  heap = (0, variable) ∷ [];
  next = 1;
  datatypes = none;
  detections = [];
}

abbrev client : Conn (Shared (Unit {0}))
client = record { caps = unchecked; world = world }

-- To all the PLC answers a batch of one item, of two bytes.
abbrev answer : ℕ → Bytes → Shared (Unit {0}) → Result Bytes × Shared (Unit {0})
answer command payload s =
    (ok (0 ∷ 0 ∷ 0 ∷ 0 ∷ 10 ∷ 0 ∷ 0 ∷ 0 ∷ 0 ∷ 0 ∷ 0 ∷ 0 ∷ 2 ∷ 0 ∷ 0 ∷ 0 ∷ 7 ∷ 0 ∷ []), s)

abbrev wait : Conn (Shared (Unit {0})) → Conn (Shared (Unit {0}))
wait c = c

read_multiple_symbols_lem_example :
    All
      (λ name.
        (has name (read_multiple_symbols same forms answer wait (a ∷ b ∷ []) client).0.values
          || is_listed name (
              failed_items
                (read_multiple_symbols same forms answer wait (a ∷ b ∷ []) client).0.error))
        ≡ true)
      (a ∷ b ∷ [])
unfolding read_multiple_symbols is_call_failure read_multiple_symbols_retry get_symbol lookup
    eq_text require_client get_symbol_info_by_name write_read parse_data_response get_le
    get_symbol_entry sum_read response_total total_read_length parse_sum_read_response
read_multiple_symbols_lem_example =
    read_multiple_symbols_lem same forms answer wait (a ∷ b ∷ []) client refl

-- The text 7 for the variable `a`, and for another that the PLC does not have.
abbrev texts : Dict Bytes Bytes
texts = (a, b'7' ∷ []) ∷ (b, b'7' ∷ []) ∷ []

write_multiple_symbols_lem_example :
    All
      (λ name.
        (is_written name (write_multiple_symbols same forms answer wait texts client).0.values
          || is_listed name
              (failed_items (write_multiple_symbols same forms answer wait texts client).0.error))
        ≡ true)
      (names_of texts)
unfolding write_multiple_symbols is_call_failure IsDict has eq_text write_multiple_symbols_retry
    get_symbol lookup write_to_node Scalar.kind_of Scalar.write parse_int require_client
    get_symbol_info_by_name write_read parse_data_response get_le get_symbol_entry sum_write
    insert_item codes
write_multiple_symbols_lem_example =
    write_multiple_symbols_lem same forms answer wait texts client (refl, (refl, tt)) refl
