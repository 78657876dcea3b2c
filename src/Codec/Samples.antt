-- ===== src/Codec/Samples.antt =====
-- The laws of the codec at concrete variables.
use go_ads.Common.{◌≡◌, refl, [], ◌∷◌, arith, ok, ◌>>=◌, none}
use go_ads.Codec.TypeName
use go_ads.Codec.TypeName.{contains, parseable_types, eq_text}
use go_ads.Codec.{Symbol}
use go_ads.Common.Decimal.{format_uint, parse_uint}
use go_ads.Codec.Scalar.{TextForm, Forms, int_kind, kind_of, case_of}
use go_ads.Codec.{parse, write_to_node}
use go_ads.Codec.Integers.{write_to_node-parse}

abbrev plain : TextForm
plain = record { print = format_uint; scan = parse_uint 0xffffffff }

abbrev forms : Forms
forms = record {
  real = plain;
  lreal = plain;
  time = plain;
  tod = plain;
  date = plain;
  dt = plain;
  utf16_decode = λ us. us;
  utf16_encode = λ s. s;
}

abbrev level : Symbol
level = record { data_type = TypeName.int; base_type = 2; size = 2 }

-- The value is -2.
write_to_node-parse_example :
    (parse forms level (7 ∷ 0xfe ∷ 0xff ∷ 7 ∷ []) 1 none >>= λ text.
    write_to_node forms level text none)
    ≡ ok (0xfe ∷ 0xff ∷ [])
unfolding kind_of case_of eq_text contains
write_to_node-parse_example =
    write_to_node-parse forms none level int_kind (7 ∷ 0xfe ∷ 0xff ∷ 7 ∷ []) 1 refl refl
      (omega arith) refl (omega arith) (omega arith, (omega arith, tt))
