-- ===== src/Codec/Scalar.antt =====
-- The cases of the two switches of symbol_codec.go: how the bytes of a scalar are printed and how a
-- text is turned into bytes. The printing of floats, times and UTF-16 is the standard library's
-- and a parameter.
use go_ads.Common.{
  ℕ, ◌+◌, ◌-◌, ◌*◌, ◌/◌, ◌^◌, Bool, true, false, ◌&&◌, List, [], ◌∷◌, ◌++◌, Bytes, length, take,
  replicate, ltb, leb, ◌==◌, if◌then◌else◌, Result, ok, err, malformed, ◌>>=◌, Option, none, some,
}
use go_ads.Common.Words.{put_le, get_le}
use go_ads.Common.Decimal.{ℤ, pos, negsuc, format_uint, format_int, parse_uint, parse_int}
use go_ads.Codec.TypeName
use go_ads.Codec.TypeName.{eq_text, contains}

-- One for each case of the switches.
pub data Kind : Type 0 where
  bool_kind : Kind
  byte_kind : Kind
  sint_kind : Kind
  word_kind : Kind
  dword_kind : Kind
  int_kind : Kind
  dint_kind : Kind
  real_kind : Kind
  lreal_kind : Kind
  lint_kind : Kind
  ulint_kind : Kind
  string_kind : Kind
  wstring_kind : Kind
  time_kind : Kind
  tod_kind : Kind
  date_kind : Kind
  dt_kind : Kind

abbrev pub cases : List (Bytes × Kind)
cases =
    (TypeName.bool, bool_kind)
    ∷ (TypeName.byte, byte_kind)
    ∷ (TypeName.usint, byte_kind)
    ∷ (TypeName.sint, sint_kind)
    ∷ (TypeName.uint, word_kind)
    ∷ (TypeName.word, word_kind)
    ∷ (TypeName.uint16, word_kind)
    ∷ (TypeName.udint, dword_kind)
    ∷ (TypeName.dword, dword_kind)
    ∷ (TypeName.int, int_kind)
    ∷ (TypeName.int16, int_kind)
    ∷ (TypeName.dint, dint_kind)
    ∷ (TypeName.real, real_kind)
    ∷ (TypeName.lreal, lreal_kind)
    ∷ (TypeName.lint, lint_kind)
    ∷ (TypeName.ulint, ulint_kind)
    ∷ (TypeName.lword, ulint_kind)
    ∷ (TypeName.string, string_kind)
    ∷ (TypeName.wstring, wstring_kind)
    ∷ (TypeName.time, time_kind)
    ∷ (TypeName.tod, tod_kind)
    ∷ (TypeName.time_of_day, tod_kind)
    ∷ (TypeName.date, date_kind)
    ∷ (TypeName.dt, dt_kind)
    ∷ (TypeName.date_and_time, dt_kind)
    ∷ []

unfoldable pub case_of : List (Bytes × Kind) → Bytes → Option Kind
unfolding eq_text
case_of [] n = none
case_of ((x, k) ∷ rest) n = if eq_text x n then some k else case_of rest n

unfoldable pub kind_of : Bytes → Option Kind
unfolding case_of
kind_of n = case_of cases n

-- A pair of texts and numbers: `Format` and its `Parse`.
pub record TextForm : Type 0 where
  pub print : ℕ → Bytes
  pub scan : Bytes → Result ℕ

pub record Forms : Type 0 where
  pub real : TextForm
  pub lreal : TextForm
  pub time : TextForm
  pub tod : TextForm
  pub date : TextForm
  pub dt : TextForm
  pub utf16_decode : List ℕ → Bytes
  pub utf16_encode : Bytes → List ℕ

abbrev pub true_text : Bytes
true_text = b't' ∷ b'r' ∷ b'u' ∷ b'e' ∷ []

abbrev pub false_text : Bytes
false_text = b'f' ∷ b'a' ∷ b'l' ∷ b's' ∷ b'e' ∷ []

-- `strconv.ParseBool`
unfoldable pub parse_bool : Bytes → Result Bool
unfolding contains
parse_bool s =
    if contains
      ((b'1' ∷ [])
        ∷ (b't' ∷ [])
        ∷ (b'T' ∷ [])
        ∷ (b'T' ∷ b'R' ∷ b'U' ∷ b'E' ∷ [])
        ∷ true_text
        ∷ (b'T' ∷ b'r' ∷ b'u' ∷ b'e' ∷ [])
        ∷ [])
      s
    then ok true
    else if contains
        ((b'0' ∷ [])
          ∷ (b'f' ∷ [])
          ∷ (b'F' ∷ [])
          ∷ (b'F' ∷ b'A' ∷ b'L' ∷ b'S' ∷ b'E' ∷ [])
          ∷ false_text
          ∷ (b'F' ∷ b'a' ∷ b'l' ∷ b's' ∷ b'e' ∷ [])
          ∷ [])
        s
    then ok false
    else err malformed

-- `intN(v)` of an unsigned number, `half` being 2 ^ (N - 1), and back.
abbrev pub to_signed : ℕ → ℕ → ℤ
to_signed half n = if ltb n half then pos n else negsuc (2 * half - 1 - n)

unfoldable pub to_unsigned : ℕ → ℤ → ℕ
to_unsigned half (pos n) = n
to_unsigned half (negsuc n) = 2 * half - 1 - n

abbrev pub half : ℕ → ℕ
half w = 2 ^ (8 * w - 1)

-- The number in `w` bytes; another length is a size error.
unfoldable pub number : ℕ → Bytes → Result ℕ
number w raw = if length raw == w then (do p ← get_le w raw; ok p.0) else err malformed

unfoldable pub print_unsigned : ℕ → Bytes → Result Bytes
unfolding number
print_unsigned w raw = do n ← number w raw; ok (format_uint n)

unfoldable pub print_signed : ℕ → Bytes → Result Bytes
unfolding number
print_signed w raw = do n ← number w raw; ok (format_int (to_signed (half w) n))

unfoldable pub print_form : TextForm → ℕ → Bytes → Result Bytes
unfolding number
print_form form w raw = do n ← number w raw; ok (form.print n)

-- Up to the first NUL.
unfoldable pub before_nul : Bytes → Bytes
before_nul [] = []
before_nul (c ∷ cs) = if c == 0 then [] else c ∷ before_nul cs

-- The 16-bit units up to the first that is NUL; an odd last byte is ignored.
unfoldable pub units_before_nul : Bytes → List ℕ
units_before_nul (a ∷ b ∷ cs) = if a == 0 && b == 0 then [] else (a + 256 * b) ∷ units_before_nul cs
units_before_nul _ = []

unfoldable pub print_bool : Bytes → Result Bytes
print_bool (b ∷ []) = ok (if ltb 0 b then true_text else false_text)
print_bool _ = err malformed

unfoldable pub write_unsigned : ℕ → Bytes → Result Bytes
write_unsigned w text = do n ← parse_uint (2 ^ (8 * w) - 1) text; ok (put_le w n)

unfoldable pub write_signed : ℕ → Bytes → Result Bytes
unfolding to_unsigned
write_signed w text = do z ← parse_int (half w) text; ok (put_le w (to_unsigned (half w) z))

unfoldable pub write_form : TextForm → ℕ → Bytes → Result Bytes
write_form form w text = do n ← form.scan text; ok (put_le w n)

-- The last byte is kept for the NUL.
unfoldable pub write_string : ℕ → Bytes → Result Bytes
write_string size text =
    if ltb size 1
    then err malformed
    else (let src = take (size - 1) text in ok (src ++ replicate (size - length src) 0))

-- Without a high surrogate at the end.
unfoldable pub drop_high : List ℕ → List ℕ
drop_high [] = []
drop_high (u ∷ []) = if leb 0xd800 u && leb u 0xdbff then [] else u ∷ []
drop_high (u ∷ v ∷ us) = u ∷ drop_high (v ∷ us)

unfoldable pub put_units : List ℕ → Bytes
put_units [] = []
put_units (u ∷ us) = put_le 2 u ++ put_units us

unfoldable pub cut_units : ℕ → List ℕ → List ℕ
unfolding drop_high
cut_units max_chars units =
    if ltb max_chars (length units) then drop_high (take max_chars units) else units

unfoldable pub write_wstring : ℕ → List ℕ → Result Bytes
unfolding put_units cut_units
write_wstring size units =
    if ltb size 2
    then err malformed
    else (let us = cut_units ((size - 2) / 2) units in
        ok (put_units us ++ replicate (size - 2 * length us) 0))

module _ (forms : Forms) where
  unfoldable pub print : Kind → Bytes → Result Bytes
  unfolding print_bool print_unsigned print_signed print_form before_nul units_before_nul
  print bool_kind raw = print_bool raw
  print byte_kind raw = print_unsigned 1 raw
  print sint_kind raw = print_signed 1 raw
  print word_kind raw = print_unsigned 2 raw
  print dword_kind raw = print_unsigned 4 raw
  print int_kind raw = print_signed 2 raw
  print dint_kind raw = print_signed 4 raw
  print real_kind raw = print_form forms.real 4 raw
  print lreal_kind raw = print_form forms.lreal 8 raw
  print lint_kind raw = print_signed 8 raw
  print ulint_kind raw = print_unsigned 8 raw
  print string_kind raw = ok (before_nul raw)
  print wstring_kind raw = ok (forms.utf16_decode (units_before_nul raw))
  print time_kind raw = print_form forms.time 4 raw
  print tod_kind raw = print_form forms.tod 4 raw
  print date_kind raw = print_form forms.date 4 raw
  print dt_kind raw = print_form forms.dt 4 raw

  -- The text of a value, for a variable of `size` bytes.
  unfoldable pub write : Kind → ℕ → Bytes → Result Bytes
  unfolding write_unsigned write_signed write_form write_string write_wstring
  write bool_kind size text = (do v ← parse_bool text; ok ((if v then 1 else 0) ∷ []))
  write byte_kind size text = write_unsigned 1 text
  write sint_kind size text = write_signed 1 text
  write word_kind size text = write_unsigned 2 text
  write dword_kind size text = write_unsigned 4 text
  write int_kind size text = write_signed 2 text
  write dint_kind size text = write_signed 4 text
  write real_kind size text = write_form forms.real 4 text
  write lreal_kind size text = write_form forms.lreal 8 text
  write lint_kind size text = write_signed 8 text
  write ulint_kind size text = write_unsigned 8 text
  write string_kind size text = write_string size text
  write wstring_kind size text = write_wstring size (forms.utf16_encode text)
  write time_kind size text = write_form forms.time 4 text
  write tod_kind size text = write_form forms.tod 4 text
  write date_kind size text = write_form forms.date 4 text
  write dt_kind size text = write_form forms.dt 4 text
