-- ===== src/Discovery/Download/Laws.antt =====
-- `DownloadInChunks` of symbol_discovery.go against a PLC that serves a table.
use go_ads.Common.{
  ℕ, zero, suc, ◌+◌, ◌%◌, ◌^◌, ◌<◌, ◌≤◌, ◌≡◌, refl, ap, false, ◌&&◌, not, [], ◌∷◌, ◌++◌, Bytes,
  length, take, drop, length-take, length-drop, take_all, ltb, ◌==◌, arith, IsU32, Bool-cases, inl,
  inr, ==_refl, le→ltb-false, ltb-false→le, ltb→lt, Result, ok,
}
use go_ads.Client.Conn.{Conn}
use go_ads.Client.Rpc.{read}
use go_ads.Discovery.Download.{download_loop, download_in_chunks, read_len, max_download_size}

no_bytes : (bs : Bytes) → length bs ≡ 0 → [] ≡ bs
no_bytes [] h = refl
no_bytes (b ∷ bs) h = absurd (omega arith)

read_len_lem :
    (total chunk_size o : ℕ)
    → 1 ≤ chunk_size
    → o < total
    → (1 ≤ read_len total chunk_size o) × (o + read_len total chunk_size o ≤ total)
unfolding read_len
read_len_lem total chunk_size o h l = ground (arith, h, l)

take-drop_lem : (o r : ℕ) (bs : Bytes) → take o bs ++ take r (drop o bs) ≡ take (o + r) bs
take-drop_lem zero r bs = let e : 0 + r ≡ r = omega arith in rw e refl
take-drop_lem (suc o) r [] =
    let e : suc o + r ≡ suc (o + r) = omega arith in
    rw (e, take_all {A = ℕ} r [] (omega arith)) refl
take-drop_lem (suc o) r (b ∷ bs) =
    let e : suc o + r ≡ suc (o + r) = omega arith in rw e (ap (λ t. b ∷ t) (take-drop_lem o r bs))

module _ {S : Type 0} (ask : ℕ → Bytes → S → Result Bytes × S) (group chunk_size : ℕ)
    (table : Bytes) where
  -- The PLC answers a read of the table with the bytes asked for, or those that are left.
  abbrev pub ServesTable : Type 0
  ServesTable =
      (o l : ℕ) (c : Conn S)
      → IsU32 o
      → IsU32 l
      → (read ask group o l c).0 ≡ ok (take l (drop o table))

  download_loop_lem :
      ServesTable
      → 1 ≤ chunk_size
      → length table ≤ max_download_size
      → (n o : ℕ) (c : Conn S) → o ≤ length table
      → length table ≤ o + n
      → (download_loop ask group (length table) chunk_size n (take o table) o c).0 ≡ ok table
  unfolding download_loop read_len
  download_loop_lem serves one small zero o c h e =
      let done : length table ≤ o = omega (arith, e) in
      rw (le→ltb-false o (length table) done, take_all o table done) refl
  download_loop_lem serves one small (suc n) o c h e = elim (Bool-cases (ltb o (length table))) [
    | inr f ↦ let l = ltb-false→le o (length table) f in rw (f, take_all o table l) refl
    | inl t ↦
        let more = ltb→lt o (length table) t in
        let r = read_len (length table) chunk_size o in
        let room = read_len_lem (length table) chunk_size o one more in
        let size : length (take r (drop o table)) ≡ r =
          omega (arith, length-take r (drop o table), length-drop o table, room) in
        let some_left : (r == 0) ≡ false = ground (arith, room) in
        let wrap : (o + r) % 2 ^ 32 ≡ o + r = omega (arith, room, small) in
        let c' = (read ask group o r c).1 in
        rw
          (
            download_loop,
            t,
            serves o r c (omega (arith, h, small)) (omega (arith, room, small)),
            size,
            some_left,
            wrap,
            take-drop_lem o r table,
          )
          (download_loop_lem serves one small n (o + r) c' (omega (arith, room))
            (omega (arith, room, e)))
  ]

  -- From a PLC that serves a table of at most the limit, the download in chunks of a byte or more is that
  -- table, unless the PLC is known not to do it.
  pub download_in_chunks_lem :
      (c : Conn S)
      → ServesTable
      → 1 ≤ chunk_size
      → length table ≤ max_download_size
      → (c.caps.chunked_download_checked && not c.caps.chunked_download_supported) ≡ false
      → (download_in_chunks ask group (length table) chunk_size c).0 ≡ ok table
  unfolding download_in_chunks
  download_in_chunks_lem c serves one small known =
      let whole =
        download_loop_lem serves one small (length table) 0 c (omega arith) (omega arith) in
      let fits : length table % 2 ^ 32 ≡ length table = omega (arith, small) in
      elim (Bool-cases (length table == 0)) [
        | inl z ↦ rw z (ap ok (no_bytes table (ground (arith, z))))
        | inr n ↦
            rw
              (
                n,
                known,
                le→ltb-false max_download_size (length table) small,
                whole,
                fits,
                ==_refl (length table),
              )
              refl
      ]
