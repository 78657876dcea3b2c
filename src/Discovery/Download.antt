-- ===== src/Discovery/Download.antt =====
-- `DownloadInChunks` of symbol_discovery.go. The fuel is the number of bytes, of which each round
-- takes one or more. The delay between chunks, and its cancellation, are left out.
pub mod Laws
pub mod Verdict
mod Samples
use go_ads.Common.{
  ℕ, zero, suc, ◌+◌, ◌-◌, ◌*◌, ◌%◌, ◌^◌, Bool, true, false, ◌&&◌, ◌||◌, not, [], ◌∷◌, ◌++◌, Bytes,
  length, ltb, ◌==◌, if◌then◌else◌, Result, ok, err, malformed, Fault, device,
}
use go_ads.Defs.Code
use go_ads.Client.Conn.{Capabilities, Conn, M}
use go_ads.Client.Rpc.{read}

unfoldable pub is_chunked_download_unsupported_err : Fault → Bool
is_chunked_download_unsupported_err (device rc) =
    rc == Code.device_service_not_supported || rc == Code.device_invalid_offset
is_chunked_download_unsupported_err _ = false

abbrev pub max_download_size : ℕ
max_download_size = 64 * 1024 * 1024

abbrev pub settled : {S : Type 0} → Bool → Conn S → Conn S
settled supported c =
    let caps = c.caps in
    record c {
      caps = record caps {
        chunked_download_supported = supported;
        chunked_download_checked = true;
      };
    }

-- What a failed chunk tells of the PLC: something only if it was the first.
unfoldable pub learn : {S : Type 0} → ℕ → Fault → Conn S → Conn S
unfolding is_chunked_download_unsupported_err
learn offset e c =
    if offset == 0 && not c.caps.chunked_download_checked && is_chunked_download_unsupported_err e
    then settled false c
    else c

-- The length of the next read.
unfoldable pub read_len : ℕ → ℕ → ℕ → ℕ
read_len total chunk_size offset =
    if ltb (total - offset) chunk_size then total - offset else chunk_size

module _ {S : Type 0} (ask : ℕ → Bytes → S → Result Bytes × S) (group total chunk_size : ℕ) where
  unfoldable pub download_loop : ℕ → Bytes → ℕ → M S Bytes
  unfolding learn read_len
  download_loop zero result offset c =
      if ltb offset total then (err malformed, c) else (ok result, c)
  download_loop (suc n) result offset c =
      let (answer, c') = read ask group offset (read_len total chunk_size offset) c in
      let next : Result Bytes × Conn S = elim answer [
        | err e ↦ (err e, learn offset e c')
        | ok chunk ↦
            let rest = download_loop n (result ++ chunk) ((offset + length chunk) % 2 ^ 32) c' in
            if length chunk == 0 then (err malformed, c') else rest
      ] in
      if ltb offset total then next else (ok result, c)

  unfoldable pub download_in_chunks : M S Bytes
  unfolding download_loop
  download_in_chunks c =
      if total == 0
      then (ok [], c)
      else if c.caps.chunked_download_checked && not c.caps.chunked_download_supported
      then (err malformed, c)
      else if ltb max_download_size total
      then (err malformed, c)
      else (let (r, c') = download_loop total [] 0 c in
          elim r [
            | err e ↦ (err e, c')
            | ok result ↦ (
              if not (length result % 2 ^ 32 == total) then err malformed else ok result,
              if c'.caps.chunked_download_checked then c' else settled true c',
            )
          ])
