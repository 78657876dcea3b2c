-- ===== src/Ams/Frame.antt =====
-- The frame that `encodeTo` of ams.go sends, read as its receiver reads it.
use go_ads.Common.{
  ℕ, ◌+◌, ◌≤◌, ◌≡◌, ◌^◌, ◌%◌, ◌++◌, Bytes, length, arith, length-append, append_assoc,
}
use go_ads.Common.Words.{put_le, length-put_le}
use go_ads.Ams.{
  AmsAddress, AmsHeader, ams_header_size, encode_ams_header, encode_to, max_ams_payload_size,
}
use go_ads.Ams.Header.{length-encode_ams_header}

module _ (source target : AmsAddress) (command : ℕ) (payload : Bytes) (invoke_id : ℕ) where
  -- The header that a request carries.
  abbrev pub request_header : AmsHeader
  request_header = record {
    target = target;
    source = source;
    command = command;
    state = 4;
    length_field = length payload;
    error_code = 0;
    invoke_id = invoke_id;
  }

  -- A frame whose payload is within the bound is the six bytes of the TCP header, whose last four
  -- give the length of what follows, then the header, then the payload: nothing wraps.
  pub encode_to_lem :
      length payload ≤ max_ams_payload_size
      → encode_to source target command payload invoke_id
        ≡ put_le 1 0
          ++ (put_le 1 0
              ++ (put_le 4 (ams_header_size + length payload)
                  ++ (encode_ams_header request_header ++ payload)))
  unfolding encode_to
  encode_to_lem h =
      let small : length payload % 2 ^ 32 ≡ length payload = omega arith in
      let total : (32 + length payload) % 2 ^ 32 ≡ 32 + length payload = omega arith in
      rw (small, total) (simp append_assoc)

  -- The frame is 38 bytes longer than its payload.
  pub length-encode_to :
      length (encode_to source target command payload invoke_id) ≡ 38 + length payload
  unfolding encode_to
  length-encode_to = omega (arith, length-append {0}, length-put_le, length-encode_ams_header)
