-- ===== src/Codec/Resolve.antt =====
-- The types that symbol_codec.go takes a variable to have.
use go_ads.Common.{
  ℕ, ◌≡◌, inl, inr, true, false, Bytes, arith, ok, Option, none, some, Option-cases, Bool-cases,
}
use go_ads.Codec.TypeName
use go_ads.Codec.TypeName.{contains, parseable_types, eq_text}
use go_ads.Codec.{
  Symbol, DataTypes, lookup, ads_type_to_string, ads_type_width, infer_base_type, table_type,
  read_type, write_type,
}

Parseable : Bytes → Type 0
Parseable t = contains parseable_types t ≡ true

table_type-Parseable :
    (types : Option DataTypes) (n : Bytes) {t : Bytes} → table_type types n ≡ some t → Parseable t
unfolding table_type Parseable
table_type-Parseable none n h = cc
table_type-Parseable (some m) n h = elim (Option-cases (lookup m n)) [
  | inl e ↦ absurd (cc (e, h))
  | inr (t', e) ↦ elim (Bool-cases (contains parseable_types t')) [
    | inl p ↦ cc (e, p, h)
    | inr p ↦ absurd (cc (e, p, h))
  ]
]

ads_type_to_string-Parseable :
    (code : ℕ) {t : Bytes} → ads_type_to_string code ≡ some t → Parseable t
unfolding ads_type_to_string contains eq_text Parseable
ads_type_to_string-Parseable code h = ground (arith, h)

infer_base_type-Parseable : (size : ℕ) {t : Bytes} → infer_base_type size ≡ some t → Parseable t
unfolding infer_base_type contains eq_text Parseable
infer_base_type-Parseable size h = ground (arith, h)

read_type-Parseable :
    (types : Option DataTypes) (s : Symbol) {t : Bytes} → read_type types s ≡ ok t → Parseable t
unfolding read_type
read_type-Parseable types s {t = t} h = elim (Option-cases (table_type types s.data_type)) [
  | inr (t', e) ↦ table_type-Parseable types s.data_type {t = t} (ground (arith, h, e))
  | inl e ↦ elim (Option-cases (ads_type_to_string s.base_type)) [
    | inr (t', f) ↦ ads_type_to_string-Parseable s.base_type {t = t} (ground (arith, h, e, f))
    | inl f ↦ infer_base_type-Parseable s.size {t = t} (ground (arith, h, e, f))
  ]
]

write_type-Parseable :
    (types : Option DataTypes) (s : Symbol) {t : Bytes} → write_type types s ≡ ok t → Parseable t
unfolding write_type Parseable
write_type-Parseable types s {t = t} h = elim (Bool-cases (contains parseable_types s.data_type)) [
  | inl p ↦ cc (p, h)
  | inr p ↦ elim (Option-cases (table_type types s.data_type)) [
    | inr (t', e) ↦ table_type-Parseable types s.data_type {t = t} (ground (arith, h, e, p))
    | inl e ↦ infer_base_type-Parseable s.size {t = t} (ground (arith, h, e, p))
  ]
]

-- The type that a read falls back on, from the table, the type code or the size, is one of the
-- parseable ones, and so is the type of a write.
pub resolved_types :
    (types : Option DataTypes) (s : Symbol) {t u : Bytes}
    → read_type types s ≡ ok t
    → write_type types s ≡ ok u
    → (contains parseable_types t ≡ true) × (contains parseable_types u ≡ true)
unfolding Parseable
resolved_types types s h k = (read_type-Parseable types s h, write_type-Parseable types s k)

-- A variable of a named type that is not in the table, of two bytes and with the code of UINT, is
-- read as UINT but written as INT.
alias_types :
    (types : Option DataTypes) (s : Symbol)
    → contains parseable_types s.data_type ≡ false
    → table_type types s.data_type ≡ none
    → s.base_type ≡ 18
    → s.size ≡ 2
    → (read_type types s ≡ ok TypeName.uint) × (write_type types s ≡ ok TypeName.int)
unfolding read_type write_type ads_type_to_string ads_type_width infer_base_type
alias_types types s p n b z = ground (arith, p, n, b, z)
