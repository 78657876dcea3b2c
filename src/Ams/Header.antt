-- ===== src/Ams/Header.antt =====
-- `EncodeAMSHeader`, `ParseAMSHeader` and `Equal` of ams.go.
use go_ads.Common.{
  ◌<◌, ◌≡◌, ◌↔◌, true, false, ◌++◌, append_assoc, Bytes, length, arith, ltb, if◌then◌else◌, ok, err,
  malformed, length-append, le→ltb-false, lt→ltb,
}
use go_ads.Common.Words.{get_le-put_le, length-put_le}
use go_ads.Ams.{
  AmsAddress, AmsHeader, ams_header_size, max_ams_payload_size, put_address, get_address,
  encode_ams_header, get_header, parse_ams_header, IsAddress, IsHeader, equal,
}

pub get_address-put_address :
    (a : AmsAddress) (rest : Bytes)
    → IsAddress a
    → get_address (put_address a ++ rest) ≡ ok (a, rest)
unfolding get_address put_address
get_address-put_address a rest h = rw (get_le-put_le 2 a.port rest h.port_fits)

pub length-put_address : (a : AmsAddress) → length (put_address a) ≡ 8
unfolding put_address
length-put_address a = omega (arith, length-put_le 2 a.port)

pub length-encode_ams_header : (h : AmsHeader) → length (encode_ams_header h) ≡ ams_header_size
unfolding encode_ams_header
length-encode_ams_header h = simp (length-append, length-put_address, length-put_le)

pub get_header-encode :
    (h : AmsHeader) (rest : Bytes)
    → IsHeader h
    → get_header (encode_ams_header h ++ rest) ≡ ok (h, rest)
unfolding get_header encode_ams_header
get_header-encode h rest f = simp append_assoc (
    rw (
      get_address-put_address h.target _ f.target_fits,
      get_address-put_address h.source _ f.source_fits,
      get_le-put_le 2 h.command _ f.command_fits,
      get_le-put_le 2 h.state _ f.state_fits,
      get_le-put_le 4 h.length_field _ f.length_fits,
      get_le-put_le 4 h.error_code _ f.error_fits,
      get_le-put_le 4 h.invoke_id _ f.invoke_fits,
    ))

-- A header whose fields fit their types is read back from its encoding, whatever follows it, if
-- its length field is at most the bound on payloads; above the bound it is refused.
pub parse-encode_ams_header :
    (h : AmsHeader) (rest : Bytes)
    → IsHeader h
    → parse_ams_header (encode_ams_header h ++ rest)
      ≡ (if ltb max_ams_payload_size h.length_field then err malformed else ok h)
unfolding parse_ams_header
parse-encode_ams_header h rest f =
    let long : ltb (length (encode_ams_header h ++ rest)) 32 ≡ false =
      le→ltb-false _ 32
        (omega (arith, length-append (encode_ams_header h) rest, length-encode_ams_header h)) in
    rw (long, get_header-encode h rest f)

-- Fewer bytes than a header holds are refused.
pub parse_ams_header_short :
    (b : Bytes) → length b < ams_header_size → parse_ams_header b ≡ err malformed
unfolding parse_ams_header
parse_ams_header_short b h = rw (lt→ltb _ _ h)

-- `Equal` decides equality of addresses.
pub equal_iff : (a b : AmsAddress) → (equal a b ≡ true) ↔ (a ≡ b)
unfolding equal
equal_iff a b = ground arith
