-- ===== src/Client/Wire/Laws.antt =====
-- The responses that the decoders of cmd_simple.go take, and what they make of them.
use go_ads.Common.{
  ℕ, ◌<◌, ◌≡◌, Bytes, ◌++◌, length, take, drop, All, ltb, arith, if◌then◌else◌, ok, err, device,
  malformed, IsByte, IsU32, take-append_length, length-append, take-append-drop, length-take,
  passed_on,
}
use go_ads.Common.Words.{put_le, get_le, get_le-put_le, get_le_sound}
use go_ads.Client.Wire.{parse_data_response}

-- A device's code is reported whatever follows the response's head.
pub parse_data_response_error :
    (code declared : ℕ) (rest : Bytes)
    → IsU32 code
    → IsU32 declared
    → 0 < code
    → parse_data_response (put_le 4 code ++ (put_le 4 declared ++ rest)) ≡ err (device code)
unfolding parse_data_response
parse_data_response_error code declared rest hc hd p =
    rw (get_le-put_le 4 code _ hc, get_le-put_le 4 declared _ hd) (ground arith)

-- The declared bytes are returned, and what follows them is dropped.
pub parse_data_response_ok :
    (body extra : Bytes)
    → IsU32 (length body)
    → parse_data_response (put_le 4 0 ++ (put_le 4 (length body) ++ (body ++ extra))) ≡ ok body
unfolding parse_data_response
parse_data_response_ok body extra h =
    rw
      (
        get_le-put_le 4 0 _ (omega arith),
        get_le-put_le 4 (length body) _ h,
        take-append_length body extra,
      )
      (ground (arith, length-append body extra))

finish :
    (code declared : ℕ) (r2 : Bytes) {resp r1 body : Bytes}
    → put_le 4 code ++ r1 ≡ resp
    → put_le 4 declared ++ r2 ≡ r1
    → (if ltb 0 code
        then err (device code)
        else if ltb (length r2) declared
        then err malformed
        else ok (take declared r2))
      ≡ ok body
    → (extra : Bytes) × (resp ≡ put_le 4 0 ++ (put_le 4 (length body) ++ (body ++ extra)))
finish code declared r2 b1 b2 e = (
  drop declared r2,
  ground (arith, b1, b2, e, length-take declared r2, take-append-drop declared r2),
)

-- Whatever is returned stood in the response behind a zero code and its own length: nothing is
-- cut short and nothing is made up.
pub parse_data_response_sound :
    (resp : Bytes) {body : Bytes}
    → All IsByte resp
    → parse_data_response resp ≡ ok body
    → (extra : Bytes) × (resp ≡ put_le 4 0 ++ (put_le 4 (length body) ++ (body ++ extra)))
unfolding parse_data_response
parse_data_response_sound resp {body} hs e =
    let ((code, r1), p, q) = passed_on (get_le 4 resp) _ e in
    let ((declared, r2), p', q') = passed_on (get_le 4 r1) _ q in
    let (f1, b1, h1) = get_le_sound 4 resp hs p in
    let (f2, b2, h2) = get_le_sound 4 r1 h1 p' in finish code declared r2 b1 b2 q'
