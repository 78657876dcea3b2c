-- ===== src/Symbols/Entry/Laws.antt =====
-- What the decoding of one entry reads back and how much of the buffer it takes.
use go_ads.Common.{
  ℕ, ◌+◌, ◌-◌, ◌≡◌, ◌∷◌, ◌++◌, Bytes, length, drop, arith, ok, IsU16, IsU32, length-append,
  length-drop, drop-append_length, if-both, ltb, le→ltb-false,
}
use go_ads.Common.Words.{
  put_le, get_le-put_le, get_bytes-append, get_le-Took, get_bytes-Took, Took-both, Took,
}
use go_ads.Symbols.Entry.{
  SymbolEntry, Texts, UploadSymbol, get_symbol_entry, get_texts, upload_symbol, get_upload_symbol,
}

-- The bytes of an entry's head before `rest`.
unfoldable pub put_symbol_entry : SymbolEntry → Bytes → Bytes
put_symbol_entry e rest =
    put_le 4 e.entry_length
    ++ (put_le 4 e.igroup
        ++ (put_le 4 e.ioffs
            ++ (put_le 4 e.size
                ++ (put_le 4 e.data_type
                    ++ (put_le 4 e.flags
                        ++ (put_le 2 e.name_length
                            ++ (put_le 2 e.type_length ++ (put_le 2 e.comment_length ++ rest))))))))

unfoldable pub put_texts : Texts → Bytes → Bytes
put_texts t rest = t.name ++ (0 ∷ (t.data_type ++ (0 ∷ (t.comment ++ (0 ∷ rest)))))

-- The fields fit their widths.
abbrev pub EntryFits : SymbolEntry → Type 0
EntryFits e =
    (IsU32 e.entry_length × IsU32 e.igroup × IsU32 e.ioffs)
    × (IsU32 e.size × IsU32 e.data_type × IsU32 e.flags)
    × (IsU16 e.name_length × IsU16 e.type_length × IsU16 e.comment_length)

pub get-put_symbol_entry :
    (e : SymbolEntry) (rest : Bytes)
    → EntryFits e
    → get_symbol_entry (put_symbol_entry e rest) ≡ ok (e, rest)
unfolding get_symbol_entry put_symbol_entry
get-put_symbol_entry e rest ((a, b, c), (d, f, g), (h, i, j)) = rw (
  get_le-put_le 4 e.entry_length _ a,
  get_le-put_le 4 e.igroup _ b,
  get_le-put_le 4 e.ioffs _ c,
  get_le-put_le 4 e.size _ d,
  get_le-put_le 4 e.data_type _ f,
  get_le-put_le 4 e.flags _ g,
  get_le-put_le 2 e.name_length _ h,
  get_le-put_le 2 e.type_length _ i,
  get_le-put_le 2 e.comment_length rest j,
)

pub get-put_texts :
    (t : Texts) (rest : Bytes)
    → get_texts (length t.name) (length t.data_type) (length t.comment) (put_texts t rest)
      ≡ ok (t, rest)
unfolding get_texts put_texts
get-put_texts t rest = rw (
  get_bytes-append t.name (0 ∷ (t.data_type ++ (0 ∷ (t.comment ++ (0 ∷ rest))))),
  get_bytes-append t.data_type (0 ∷ (t.comment ++ (0 ∷ rest))),
  get_bytes-append t.comment (0 ∷ rest),
)

pub length-put_texts :
    (t : Texts) (rest : Bytes)
    → length (put_texts t rest)
      ≡ (length t.name + length t.data_type + length t.comment + 3) + length rest
unfolding put_texts
length-put_texts t rest = omega (
  arith,
  length-append t.name (0 ∷ (t.data_type ++ (0 ∷ (t.comment ++ (0 ∷ rest))))),
  length-append t.data_type (0 ∷ (t.comment ++ (0 ∷ rest))),
  length-append t.comment (0 ∷ rest),
)

pub length-put_symbol_entry :
    (e : SymbolEntry) (rest : Bytes) → length (put_symbol_entry e rest) ≡ 30 + length rest
unfolding put_symbol_entry put_le
length-put_symbol_entry e rest = omega arith

-- One entry of a table as a PLC uploads it, with padding behind its texts.
pub record Upload : Type 0 where
  pub entry : SymbolEntry
  pub texts : Texts
  pub padding : Bytes

unfoldable pub put_upload : Upload → Bytes → Bytes
put_upload u rest = put_symbol_entry u.entry (put_texts u.texts (u.padding ++ rest))

-- The lengths in the head are those of the texts and of the whole, and the fields fit.
abbrev pub UploadFits : Upload → Type 0
UploadFits u =
    EntryFits u.entry
    × ((length u.texts.name ≡ u.entry.name_length)
        × (length u.texts.data_type ≡ u.entry.type_length)
        × (length u.texts.comment ≡ u.entry.comment_length))
    × (u.entry.entry_length
        ≡ 33
          + length u.texts.name
          + length u.texts.data_type
          + length u.texts.comment
          + length u.padding)

abbrev pub symbol_of : Upload → UploadSymbol
symbol_of u = upload_symbol u.entry u.texts

pub length-put_upload :
    (u : Upload) (rest : Bytes)
    → UploadFits u
    → length (put_upload u rest) ≡ u.entry.entry_length + length rest
unfolding put_upload
length-put_upload u rest (f, t, l) = omega (
  arith,
  l,
  length-put_symbol_entry u.entry (put_texts u.texts (u.padding ++ rest)),
  length-put_texts u.texts (u.padding ++ rest),
  length-append u.padding rest,
)

get_texts-put_upload :
    (u : Upload) (rest : Bytes)
    → UploadFits u
    → get_texts u.entry.name_length u.entry.type_length u.entry.comment_length
        (put_texts u.texts (u.padding ++ rest))
      ≡ ok (u.texts, u.padding ++ rest)
get_texts-put_upload u rest (f, (n, t, c), l) =
    rw (← n, ← t, ← c) (get-put_texts u.texts (u.padding ++ rest))

drop_padding : (n m : ℕ) (xs rest : Bytes) → n ≡ m + length xs → drop (n - m) (xs ++ rest) ≡ rest
drop_padding n m xs rest e =
    let k : n - m ≡ length xs = omega arith in rw k (drop-append_length xs rest)

-- What a PLC has put is read back, and what follows it is left.
pub get-put_upload :
    (u : Upload) (rest : Bytes)
    → UploadFits u
    → get_upload_symbol (put_upload u rest) ≡ ok (symbol_of u, rest)
get-put_upload u rest h =
    let (f, t, l) = h in
    let total : length (put_upload u rest) ≡ u.entry.entry_length + length rest =
      length-put_upload u rest h in
    let left : length (u.padding ++ rest) ≡ length u.padding + length rest =
      length-append u.padding rest in
    let consumed : ℕ = length (put_upload u rest) - length (u.padding ++ rest) in
    let exact : u.entry.entry_length ≡ consumed + length u.padding = omega arith in
    let head : get_symbol_entry (put_upload u rest)
        ≡ ok (u.entry, put_texts u.texts (u.padding ++ rest)) =
      unfold put_upload in get-put_symbol_entry u.entry (put_texts u.texts (u.padding ++ rest)) f in
    unfold get_upload_symbol in
    rw (
      head,
      get_texts-put_upload u rest h,
      le→ltb-false u.entry.entry_length consumed (omega arith),
      drop_padding u.entry.entry_length consumed u.padding rest exact,
    )

-- An entry that is accepted takes its head from the buffer, and the whole takes no less.
pub get_symbol_entry_takes : (bs : Bytes) → Took 30 (length bs) (get_symbol_entry bs)
unfolding get_symbol_entry
get_symbol_entry_takes bs =
    Took-both (Took 30 (length bs)) _ _ _ _ (get_le-Took 4 bs) (λ _. tt)
      λ _ r1 e1.
        Took-both (Took 30 (length bs)) _ _ _ _ (get_le-Took 4 r1) (λ _. tt)
          λ _ r2 e2.
            Took-both (Took 30 (length bs)) _ _ _ _ (get_le-Took 4 r2) (λ _. tt)
              λ _ r3 e3.
                Took-both (Took 30 (length bs)) _ _ _ _ (get_le-Took 4 r3) (λ _. tt)
                  λ _ r4 e4.
                    Took-both (Took 30 (length bs)) _ _ _ _ (get_le-Took 4 r4) (λ _. tt)
                      λ _ r5 e5.
                        Took-both (Took 30 (length bs)) _ _ _ _ (get_le-Took 4 r5) (λ _. tt)
                          λ _ r6 e6.
                            Took-both (Took 30 (length bs)) _ _ _ _ (get_le-Took 2 r6) (λ _. tt)
                              λ _ r7 e7.
                                Took-both (Took 30 (length bs)) _ _ _ _ (get_le-Took 2 r7) (λ _. tt)
                                  λ _ r8 e8.
                                    Took-both (Took 30 (length bs)) _ _ _ _ (get_le-Took 2 r8)
                                      (λ _. tt) λ _ r9 e9. omega arith

pub get_texts_takes : (n m l : ℕ) (bs : Bytes) → Took 0 (length bs) (get_texts n m l bs)
unfolding get_texts
get_texts_takes n m l bs =
    Took-both (Took 0 (length bs)) _ _ _ _ (get_bytes-Took n bs) (λ _. tt)
      λ _ r1 e1.
        Took-both (Took 0 (length bs)) _ _ _ _ (get_bytes-Took m (drop 1 r1)) (λ _. tt)
          λ _ r2 e2.
            Took-both (Took 0 (length bs)) _ _ _ _ (get_bytes-Took l (drop 1 r2)) (λ _. tt)
              λ _ r3 e3. omega (arith, length-drop 1 r1, length-drop 1 r2, length-drop 1 r3)

pub get_upload_symbol_takes : (bs : Bytes) → Took 30 (length bs) (get_upload_symbol bs)
unfolding get_upload_symbol
get_upload_symbol_takes bs =
    Took-both (Took 30 (length bs)) _ _ _ _ (get_symbol_entry_takes bs) (λ _. tt)
      λ entry r1 e1.
        Took-both (Took 30 (length bs)) _ _ _ _
          (get_texts_takes entry.name_length entry.type_length entry.comment_length r1) (λ _. tt)
          λ texts r2 e2.
            if-both (Took 30 (length bs)) (ltb entry.entry_length (length bs - length r2)) tt
              (omega (arith, length-drop (entry.entry_length - (length bs - length r2)) r2))
