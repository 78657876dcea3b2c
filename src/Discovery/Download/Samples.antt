-- ===== src/Discovery/Download/Samples.antt =====
-- A PLC with a table of five bytes that is read two at a time.
use go_ads.Common.{
  ℕ, ◌≡◌, refl, [], ◌∷◌, ◌++◌, append-nil, Bytes, length, take, drop, length-take, length-drop,
  arith, Result, ok, ◌>>=◌, IsU32,
}
use go_ads.Common.Words.{put_le, get_le, get_le-put_le}
use go_ads.Client.Wire.{read_request, parse_data_response}
use go_ads.Client.Wire.Laws.{parse_data_response_ok}
use go_ads.Client.Conn.{Conn, unchecked}
use go_ads.Client.Rpc.{read}
use go_ads.Common.{Fault, err, true}
use go_ads.Discovery.Download.{
  download_in_chunks, download_loop, learn, is_chunked_download_unsupported_err,
}
use go_ads.Discovery.Download.Verdict.{download_in_chunks-verdict}
use go_ads.Discovery.Download.Laws.{ServesTable, download_in_chunks_lem}

abbrev table : Bytes
table = 10 ∷ 20 ∷ 30 ∷ 40 ∷ 50 ∷ []

unfoldable asked_for : Bytes → Result (ℕ × ℕ)
asked_for payload = do
  (group, r1) ← get_le 4 payload
  (offset, r2) ← get_le 4 r1
  (size, r3) ← get_le 4 r2
  ok (offset, size)

abbrev chunk : ℕ → ℕ → Bytes
chunk offset size = take size (drop offset table)

abbrev answer : ℕ → ℕ → Bytes
answer offset size =
    put_le 4 0 ++ (put_le 4 (length (chunk offset size)) ++ (chunk offset size ++ []))

abbrev serve : ℕ → Bytes → Unit {0} → Result Bytes × Unit {0}
serve command payload w = ((do (offset, size) ← asked_for payload; ok (answer offset size)), w)

asked_for-read_request :
    (o l : ℕ) → IsU32 o → IsU32 l → asked_for (read_request 0xf00b o l) ≡ ok (o, l)
unfolding asked_for read_request
asked_for-read_request o l p q =
    let last = rw (append-nil (put_le 4 l)) at (get_le-put_le 4 l [] q) in
    rw (get_le-put_le 4 0xf00b _ (omega arith), get_le-put_le 4 o _ p, last) refl

serves : ServesTable serve 0xf00b 2 table
unfolding read
serves o l c p q =
    let size : IsU32 (length (chunk o l)) =
      omega (arith, length-take l (drop o table), length-drop o table) in
    ground (arith, asked_for-read_request o l p q, parse_data_response_ok (chunk o l) [] size)

abbrev fresh : Conn (Unit {0})
fresh = record { caps = unchecked; world = tt }

download_in_chunks_lem_example : (download_in_chunks serve 0xf00b 5 2 fresh).0 ≡ ok table
download_in_chunks_lem_example =
    download_in_chunks_lem serve 0xf00b 2 table fresh serves (omega arith) (omega arith) refl

-- A PLC that does not know the service.
abbrev refuse : ℕ → Bytes → Unit {0} → Result Bytes × Unit {0}
refuse command payload w = (ok (put_le 4 0x701 ++ put_le 4 0), w)

download_in_chunks-verdict_example :
    (e : Fault) × ((download_in_chunks refuse 0xf00b 5 2 fresh).0 ≡ err e)
    × (is_chunked_download_unsupported_err e ≡ true)
unfolding download_in_chunks download_loop learn read parse_data_response get_le put_le
    is_chunked_download_unsupported_err
download_in_chunks-verdict_example =
    download_in_chunks-verdict refuse 0xf00b 5 2 fresh refl refl refl
