-- ===== src/Symbols/Entry.antt =====
-- The entries of the uploaded symbol table: `cString`, `normalizeStringDataType` and the body of
-- the loop of `parseUploadSymbolInfoSymbols` up to the padding behind an entry.
pub mod Laws
use go_ads.Common.{
  ℕ, ◌+◌, ◌-◌, Bool, ◌&&◌, [], ◌∷◌, Bytes, length, take, drop, ltb, leb, ◌==◌, if◌then◌else◌,
  Result, ok, err, malformed, ◌>>=◌,
}
use go_ads.Common.Words.{get_le, get_bytes}
use go_ads.Codec.TypeName.{eq_text, string, wstring}

unfoldable pub c_string : Bytes → Bytes
c_string [] = []
c_string (c ∷ s) = if c == 0 then [] else c ∷ c_string s

-- A prefix that is not there makes a length test fail.
unfoldable pub normalize_string_data_type : Bytes → Bytes
normalize_string_data_type dt =
    if leb 7 (length dt) && eq_text (take 7 dt) wstring
    then wstring
    else if leb 6 (length dt) && eq_text (take 6 dt) string
    then string
    else dt

pub record SymbolEntry : Type 0 where
  pub entry_length : ℕ
  pub igroup : ℕ
  pub ioffs : ℕ
  pub size : ℕ
  pub data_type : ℕ
  pub flags : ℕ
  pub name_length : ℕ
  pub type_length : ℕ
  pub comment_length : ℕ

unfoldable pub get_symbol_entry : Bytes → Result (SymbolEntry × Bytes)
get_symbol_entry bs = do
  (entry_length, r1) ← get_le 4 bs
  (igroup, r2) ← get_le 4 r1
  (ioffs, r3) ← get_le 4 r2
  (size, r4) ← get_le 4 r3
  (data_type, r5) ← get_le 4 r4
  (flags, r6) ← get_le 4 r5
  (name_length, r7) ← get_le 2 r6
  (type_length, r8) ← get_le 2 r7
  (comment_length, rest) ← get_le 2 r8
  ok (
    record {
      entry_length = entry_length;
      igroup = igroup;
      ioffs = ioffs;
      size = size;
      data_type = data_type;
      flags = flags;
      name_length = name_length;
      type_length = type_length;
      comment_length = comment_length;
    },
    rest,
  )

pub record Texts : Type 0 where
  pub name : Bytes
  pub data_type : Bytes
  pub comment : Bytes

-- The name, the type and the comment, each with a NUL after it, which `Next(1)` skips, also where
-- the buffer ends before it.
unfoldable pub get_texts : ℕ → ℕ → ℕ → Bytes → Result (Texts × Bytes)
get_texts name_length type_length comment_length bs = do
  (name, r1) ← get_bytes name_length bs
  (data_type, r2) ← get_bytes type_length (drop 1 r1)
  (comment, r3) ← get_bytes comment_length (drop 1 r2)
  ok (record { name = name; data_type = data_type; comment = comment }, drop 1 r3)

-- symbolUploadSymbol, whose children nothing sets
pub record UploadSymbol : Type 0 where
  pub entry : SymbolEntry
  pub name : Bytes
  pub data_type : Bytes
  pub comment : Bytes

unfoldable pub upload_symbol : SymbolEntry → Texts → UploadSymbol
upload_symbol entry texts = record {
  entry = entry;
  name = c_string texts.name;
  data_type = normalize_string_data_type (c_string texts.data_type);
  comment = c_string texts.comment;
}

-- `skip` is the declared length of the entry less what has been read of it.
unfoldable pub get_upload_symbol : Bytes → Result (UploadSymbol × Bytes)
unfolding get_symbol_entry get_texts upload_symbol
get_upload_symbol bs = do
  (entry, r1) ← get_symbol_entry bs
  (texts, r2) ← get_texts entry.name_length entry.type_length entry.comment_length r1
  let consumed = length bs - length r2
  if ltb entry.entry_length consumed
      then err malformed
      else ok (upload_symbol entry texts, drop (entry.entry_length - consumed) r2)
