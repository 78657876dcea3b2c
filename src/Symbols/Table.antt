-- ===== src/Symbols/Table.antt =====
-- `parseUploadSymbolInfoSymbols`: the symbols of an uploaded table, each filed under its key with
-- its members. The fuel is the number of bytes, of which each round takes thirty or more.
use go_ads.Common.{
  ℕ, zero, suc, ◌+◌, ◌≤◌, ◌≡◌, refl, ◌∙◌, [], ◌∷◌, List, Bytes, length, arith, Result, ok, err,
  malformed, Result-cases, inl, inr, All,
}
use go_ads.Common.Dict.{Dict, Bytes-Key, insert}
use go_ads.Symbols.Entry.{UploadSymbol, get_upload_symbol}
use go_ads.Symbols.Entry.Laws.{
  Upload, put_upload, UploadFits, symbol_of, get-put_upload, length-put_upload,
  get_upload_symbol_takes,
}
use go_ads.Symbols.Tree.{DataType, Node, add_symbol, add_children}

module _ (symbol_key : Bytes → Bytes) (datatypes : Dict Bytes DataType) where
  unfoldable pub file_symbol : UploadSymbol → Dict Bytes Node → Dict Bytes Node
  file_symbol s symbols =
      let n = add_symbol datatypes s in
      add_children symbol_key n (insert (symbol_key s.name) n symbols)

  unfoldable pub parse_symbols : ℕ → Bytes → Dict Bytes Node → Result (Dict Bytes Node)
  parse_symbols fuel [] symbols = ok symbols
  parse_symbols zero (b ∷ bs) symbols = err malformed
  parse_symbols (suc fuel) (b ∷ bs) symbols = elim (get_upload_symbol (b ∷ bs)) [
    | err e ↦ err e
    | ok (s, rest) ↦ parse_symbols fuel rest (file_symbol s symbols)
  ]

  unfoldable pub parse_upload_symbol_info_symbols : Bytes → Result (Dict Bytes Node)
  parse_upload_symbol_info_symbols bs = parse_symbols (length bs) bs []

  taken :
      (bs : Bytes) {s : UploadSymbol} {rest : Bytes}
      → get_upload_symbol bs ≡ ok (s, rest)
      → length rest + 30 ≤ length bs
  taken bs e = rw e at (get_upload_symbol_takes bs)

  -- Two amounts of fuel, each of at least the number of bytes, give the same.
  pub parse_symbols_enough :
      (n m : ℕ) (bs : Bytes) (symbols : Dict Bytes Node)
      → length bs ≤ n
      → length bs ≤ m
      → parse_symbols n bs symbols ≡ parse_symbols m bs symbols
  unfolding parse_symbols
  parse_symbols_enough n m [] symbols h k = refl
  parse_symbols_enough zero m (b ∷ bs) symbols h k = absurd (omega arith)
  parse_symbols_enough (suc n) zero (b ∷ bs) symbols h k = absurd (omega arith)
  parse_symbols_enough (suc n) (suc m) (b ∷ bs) symbols h k =
      elim (Result-cases (get_upload_symbol (b ∷ bs))) [
        | inl (x, e) ↦ rw (parse_symbols, e) refl
        | inr ((s, rest), e) ↦
            let t : length rest + 30 ≤ length (b ∷ bs) = taken (b ∷ bs) e in
            rw (parse_symbols, e)
              (parse_symbols_enough n m rest (file_symbol s symbols) (omega arith) (omega arith))
      ]

  parse_step :
      (n : ℕ) (bs : Bytes) (symbols : Dict Bytes Node) {s : UploadSymbol} {rest : Bytes}
      → 1 ≤ length bs
      → get_upload_symbol bs ≡ ok (s, rest)
      → parse_symbols (suc n) bs symbols ≡ parse_symbols n rest (file_symbol s symbols)
  unfolding parse_symbols
  parse_step n [] symbols h e = absurd (omega arith)
  parse_step n (b ∷ bs) symbols h e = rw (parse_symbols, e) refl

  abbrev pub put_table : List Upload → Bytes
  put_table [] = []
  put_table (u ∷ us) = put_upload u (put_table us)

  abbrev pub filed : List Upload → Dict Bytes Node → Dict Bytes Node
  filed [] symbols = symbols
  filed (u ∷ us) symbols = filed us (file_symbol (symbol_of u) symbols)

  parse-put_table :
      (us : List Upload) (fuel : ℕ) (symbols : Dict Bytes Node)
      → All UploadFits us
      → length (put_table us) ≤ fuel
      → parse_symbols fuel (put_table us) symbols ≡ ok (filed us symbols)
  parse-put_table [] fuel symbols f h = unfold parse_symbols in refl
  parse-put_table (u ∷ us) zero symbols (f, fs) h =
      absurd (omega (arith, length-put_upload u (put_table us) f, f.2))
  parse-put_table (u ∷ us) (suc fuel) symbols (f, fs) h =
      let l = length-put_upload u (put_table us) f in
      parse_step fuel (put_upload u (put_table us)) symbols (omega (arith, l, f.2))
        (get-put_upload u (put_table us) f)
      ∙ parse-put_table us fuel (file_symbol (symbol_of u) symbols) fs (omega (arith, l, f.2))

  -- A table of entries whose lengths are declared as they are and whose numbers fit their fields is
  -- read to its end: the symbol of each entry is filed with its members, in the order of the table.
  pub parse_upload-put_table :
      (us : List Upload)
      → All UploadFits us
      → parse_upload_symbol_info_symbols (put_table us) ≡ ok (filed us [])
  unfolding parse_upload_symbol_info_symbols
  parse_upload-put_table us f = parse-put_table us (length (put_table us)) [] f (omega arith)
