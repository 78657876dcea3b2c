-- ===== src/Codec.antt =====
-- symbol_codec.go: what the bytes of a variable print as, and the bytes that a text is written as,
-- for a symbol without children; and the tables of type codes of defs.go.
pub mod TypeName
pub mod Scalar
pub mod Bits
pub mod RoundTrip
pub mod Resolve
pub mod Integers
mod Samples
use go_ads.Common.{
  ℕ, ◌+◌, ◌==◌, Bool, true, false, ◌&&◌, not, List, [], ◌∷◌, Bytes, length, take, drop, ltb,
  if◌then◌else◌, ◌||◌, Result, ok, err, malformed, ◌>>=◌, Option, none, some,
}
use go_ads.Codec.TypeName
use go_ads.Codec.TypeName.{eq_text, contains, parseable_types}
use go_ads.Codec.Scalar.{Kind, kind_of, Forms, print, write}

pub record Symbol : Type 0 where
  pub data_type : Bytes
  pub base_type : ℕ  -- ADSDataType
  pub size : ℕ  -- Length

-- The datatype table, from a type's name to the name of the type it stands for.
abbrev pub DataTypes : Type 0
DataTypes = List (Bytes × Bytes)

unfoldable pub lookup : DataTypes → Bytes → Option Bytes
lookup [] n = none
lookup ((x, t) ∷ rest) n = if eq_text x n then some t else lookup rest n

unfoldable pub ads_type_to_string : ℕ → Option Bytes
ads_type_to_string code =
    if code == 33
    then some TypeName.bool
    else if code == 16
    then some TypeName.sint
    else if code == 17
    then some TypeName.usint
    else if code == 2
    then some TypeName.int
    else if code == 18
    then some TypeName.uint
    else if code == 3
    then some TypeName.dint
    else if code == 19
    then some TypeName.udint
    else if code == 4
    then some TypeName.real
    else if code == 5
    then some TypeName.lreal
    else if code == 20
    then some TypeName.lint
    else if code == 21
    then some TypeName.ulint
    else if code == 30
    then some TypeName.string
    else if code == 31
    then some TypeName.wstring
    else none

-- 0 where the width is not fixed.
unfoldable pub ads_type_width : ℕ → ℕ
ads_type_width code =
    if code == 33 || code == 16 || code == 17
    then 1
    else if code == 2 || code == 18
    then 2
    else if code == 3 || code == 19 || code == 4
    then 4
    else if code == 20 || code == 21 || code == 5
    then 8
    else 0

unfoldable pub infer_base_type : ℕ → Option Bytes
infer_base_type size =
    if size == 1 then some TypeName.sint else if size == 2 then some TypeName.int else none

-- The type in the datatype table, if the switch has a case for it.
unfoldable pub table_type : Option DataTypes → Bytes → Option Bytes
unfolding lookup contains
table_type none n = none
table_type (some m) n = elim (lookup m n) [
  | none ↦ none
  | some t ↦ if contains parseable_types t then some t else none
]

-- The default case of `parse`: the table, then the type code, then the size.
unfoldable pub read_type : Option DataTypes → Symbol → Result Bytes
unfolding table_type ads_type_to_string ads_type_width infer_base_type
read_type types s = elim (table_type types s.data_type) [
  | some t ↦ ok t
  | none ↦ elim (ads_type_to_string s.base_type) [
    | some t ↦
        let w = ads_type_width s.base_type in
        if ltb 0 w && not (w == s.size) then err malformed else ok t
    | none ↦ elim (infer_base_type s.size) [ some t ↦ ok t | none ↦ err malformed ]
  ]
]

-- What `writeToNode` takes the type to be: it does not look at the type code.
unfoldable pub write_type : Option DataTypes → Symbol → Result Bytes
unfolding contains table_type infer_base_type
write_type types s =
    if contains parseable_types s.data_type
    then ok s.data_type
    else elim (table_type types s.data_type) [
      | some t ↦ ok t
      | none ↦ elim (infer_base_type s.size) [ some t ↦ ok t | none ↦ err malformed ]
    ]

module _ (forms : Forms) where
  abbrev pub print_as : Bytes → Bytes → Result Bytes
  print_as name raw = elim (kind_of name) [ some k ↦ print forms k raw | none ↦ err malformed ]

  -- `parse` of a symbol without children.
  unfoldable pub parse : Symbol → Bytes → ℕ → Option DataTypes → Result Bytes
  unfolding read_type
  parse s bytes offset types =
      let raw = take s.size (drop offset bytes) in
      if ltb (length bytes) s.size || ltb (length bytes) (offset + s.size)
      then err malformed
      else elim (kind_of s.data_type) [
        | some k ↦ print forms k raw
        | none ↦ (do t ← read_type types s; print_as t raw)
      ]

  -- `writeToNode` of a symbol without children.
  unfoldable pub write_to_node : Symbol → Bytes → Option DataTypes → Result Bytes
  unfolding write_type
  write_to_node s text types = do
    t ← write_type types s
    elim (kind_of t) [ some k ↦ write forms k s.size text | none ↦ err malformed ]
