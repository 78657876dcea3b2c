-- ===== src/Ams/Samples.antt =====
-- A header, a frame and a NetID, and the laws at them.
use go_ads.Common.{◌≡◌, [], ◌∷◌, ◌++◌, arith, ltb, if◌then◌else◌, ok, err, malformed}
use go_ads.Ams.{
  NetId, AmsAddress, AmsHeader, max_ams_payload_size, encode_ams_header, parse_ams_header,
}
use go_ads.Ams.Header.{parse-encode_ams_header}
use go_ads.Ams.Frame.{request_header}

abbrev plc_id : NetId
plc_id = record { b0 = 5; b1 = 66; b2 = 133; b3 = 203; b4 = 1; b5 = 1 }

abbrev plc : AmsAddress
plc = record { net_id = plc_id; port = 851 }

abbrev host : AmsAddress
host = record { net_id = record plc_id { b0 = 192 }; port = 30000 }

abbrev header : AmsHeader
header = request_header host plc 2 (1 ∷ 2 ∷ []) 77

parse-encode_ams_header_example :
    parse_ams_header (encode_ams_header header ++ (1 ∷ 2 ∷ []))
    ≡ (if ltb max_ams_payload_size 2 then err malformed else ok header)
parse-encode_ams_header_example = parse-encode_ams_header header (1 ∷ 2 ∷ []) (omega arith)
