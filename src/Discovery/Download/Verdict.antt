-- ===== src/Discovery/Download/Verdict.antt =====
-- What `DownloadInChunks` of symbol_discovery.go keeps of the PLC's capabilities.
use go_ads.Common.{
  ℕ, zero, suc, ◌+◌, ◌%◌, ◌^◌, ◌≡◌, ◌⊎◌, inl, inr, refl, ◌∙◌, true, false, [], ◌++◌, Bytes, length,
  ltb, ◌==◌, arith, Bool-cases, Result-both, if-both, Result, err, Fault,
}
use go_ads.Client.Conn.{Conn}
use go_ads.Client.Rpc.{read}
use go_ads.Client.Rpc.Laws.{read-caps}
use go_ads.Discovery.Download.{
  download_loop, download_in_chunks, read_len, learn, is_chunked_download_unsupported_err,
}

learn_lem :
    {S : Type 0} (offset : ℕ) (e : Fault) (c : Conn S)
    → ((learn offset e c).caps ≡ c.caps) ⊎ (is_chunked_download_unsupported_err e ≡ true)
unfolding learn
learn_lem offset e c = elim (Bool-cases (is_chunked_download_unsupported_err e)) [
  | inl u ↦ inr u
  | inr u ↦ inl (ground (arith, u))
]

module _ {S : Type 0} (ask : ℕ → Bytes → S → Result Bytes × S) (group total chunk_size : ℕ) where
  abbrev Known : Conn S → Result Bytes × Conn S → Type 0
  Known c (r, c') =
      (c'.caps ≡ c.caps)
      ⊎ ((e : Fault) × (r ≡ err e) × (is_chunked_download_unsupported_err e ≡ true))

  download_loop-Known :
      (n : ℕ) (result : Bytes) (offset : ℕ) (c : Conn S)
      → Known c (download_loop ask group total chunk_size n result offset c)
  unfolding download_loop
  download_loop-Known zero result offset c = ground arith
  download_loop-Known (suc n) result offset c =
      let size = read_len total chunk_size offset in
      let (answer, c') = read ask group offset size c in
      let kept = read-caps ask c group offset size in
      let P = Known c in
      let more : (chunk : Bytes)
          → P (
              download_loop ask group total chunk_size n (result ++ chunk)
                ((offset + length chunk) % 2 ^ 32) c') =
        λ chunk.
          let o = (offset + length chunk) % 2 ^ 32 in
          elim (download_loop-Known n (result ++ chunk) o c') [
            | inl k ↦ inl (k ∙ kept)
            | inr q ↦ inr q
          ] in
      if-both P (ltb offset total)
        (Result-both P answer
          (λ e. elim (learn_lem offset e c') [ inl k ↦ inl (k ∙ kept) | inr u ↦ inr (e, refl, u) ])
          (λ chunk. if-both P (length chunk == 0) (inl kept) (more chunk)))
        (inl refl)

  -- The PLC is marked as unable only by its own verdict: where a download leaves a PLC that had not
  -- been checked marked so, the download failed with a code that names the service or the offset.
  pub download_in_chunks-verdict :
      (c : Conn S)
      → c.caps.chunked_download_checked ≡ false
      → (download_in_chunks ask group total chunk_size c).1.caps.chunked_download_checked ≡ true
      → (download_in_chunks ask group total chunk_size c).1.caps.chunked_download_supported ≡ false
      → (e : Fault) × ((download_in_chunks ask group total chunk_size c).0 ≡ err e)
        × (is_chunked_download_unsupported_err e ≡ true)
  unfolding download_in_chunks
  download_in_chunks-verdict c fresh checked unable =
      let known = download_loop-Known total [] 0 c in
      elim known [
        | inl k ↦ absurd (ground (arith, k, fresh, checked, unable))
        | inr (e, p, u) ↦ (e, ground (arith, p, fresh, checked, unable), u)
      ]
