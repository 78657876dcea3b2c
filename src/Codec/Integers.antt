-- ===== src/Codec/Integers.antt =====
-- `parse` and `writeToNode` of symbol_codec.go on variables of the integer types.
use go_ads.Common.{
  ℕ, ◌+◌, ◌≤◌, ◌≡◌, refl, ◌∙◌, true, false, Bytes, length, take, drop, length-take, length-drop,
  All, arith, ok, ◌>>=◌, ltb, IsByte, Result-cases, inl, inr, Option, some,
}
use go_ads.Codec.TypeName.{contains, parseable_types}
use go_ads.Codec.Scalar.{
  Kind, kind_of, Forms, print, write, byte_kind, sint_kind, word_kind, dword_kind, int_kind,
  dint_kind, lint_kind, ulint_kind,
}
use go_ads.Codec.{Symbol, DataTypes, parse, write_to_node, write_type}
use go_ads.Codec.RoundTrip.{write-print_unsigned, write-print_signed}

-- The number of bytes of an integer type; 0 for the others.
abbrev pub integer_width : Kind → ℕ
integer_width byte_kind = 1
integer_width sint_kind = 1
integer_width word_kind = 2
integer_width int_kind = 2
integer_width dword_kind = 4
integer_width dint_kind = 4
integer_width lint_kind = 8
integer_width ulint_kind = 8
integer_width _ = 0

write-print_kind :
    (forms : Forms) (k : Kind) (size : ℕ) (raw : Bytes)
    → 1 ≤ integer_width k
    → All IsByte raw
    → length raw ≡ integer_width k
    → (print forms k raw >>= write forms k size) ≡ ok raw
unfolding print write
write-print_kind forms byte_kind size raw h b l = write-print_unsigned 1 raw b l
write-print_kind forms word_kind size raw h b l = write-print_unsigned 2 raw b l
write-print_kind forms dword_kind size raw h b l = write-print_unsigned 4 raw b l
write-print_kind forms ulint_kind size raw h b l = write-print_unsigned 8 raw b l
write-print_kind forms sint_kind size raw h b l = write-print_signed 0 raw b l
write-print_kind forms int_kind size raw h b l = write-print_signed 1 raw b l
write-print_kind forms dint_kind size raw h b l = write-print_signed 3 raw b l
write-print_kind forms lint_kind size raw h b l = write-print_signed 7 raw b l
write-print_kind forms _ size raw h b l = absurd (omega arith)

write_type-known :
    (types : Option DataTypes) (s : Symbol)
    → contains parseable_types s.data_type ≡ true
    → write_type types s ≡ ok s.data_type
unfolding write_type
write_type-known types s known = rw known refl

write_to_node-known :
    (forms : Forms) (types : Option DataTypes) (s : Symbol) (k : Kind) (text : Bytes)
    → kind_of s.data_type ≡ some k
    → contains parseable_types s.data_type ≡ true
    → write_to_node forms s text types ≡ write forms k s.size text
unfolding write_to_node
write_to_node-known forms types s k text named known =
    let typed = write_type-known types s known in ground (arith, typed, named)

-- A variable of an integer type, with the size of that type, that is read from within the data can
-- be written back: the text of its value gives the very bytes it was read from, negative values
-- and those of eight bytes included.
pub write_to_node-parse :
    (forms : Forms) (types : Option DataTypes) (s : Symbol) (k : Kind) (bytes : Bytes) (offset : ℕ)
    → kind_of s.data_type ≡ some k
    → contains parseable_types s.data_type ≡ true
    → 1 ≤ integer_width k
    → s.size ≡ integer_width k
    → offset + s.size ≤ length bytes
    → All IsByte (take s.size (drop offset bytes))
    → (parse forms s bytes offset types >>= λ text. write_to_node forms s text types)
      ≡ ok (take s.size (drop offset bytes))
unfolding parse
write_to_node-parse forms types s k bytes offset named known integer size inside b =
    let raw = take s.size (drop offset bytes) in
    let l : length raw ≡ integer_width k =
      omega
        (arith, length-take s.size (drop offset bytes), length-drop offset bytes, size, inside) in
    let fits : ltb (length bytes) s.size ≡ false = ground (arith, inside) in
    let room : ltb (length bytes) (offset + s.size) ≡ false = ground (arith, inside) in
    let parsed : parse forms s bytes offset types ≡ print forms k raw =
      rw (fits, room, named) refl in
    let written : (text : Bytes) → write_to_node forms s text types ≡ write forms k s.size text =
      λ text. write_to_node-known forms types s k text named known in
    let back = write-print_kind forms k s.size raw integer b l in
    elim (Result-cases (print forms k raw)) [
      | inl (e, p) ↦ absurd (cc (p, back))
      | inr (text, p) ↦ rw (parsed, p) (written text ∙ (rw p at back))
    ]
