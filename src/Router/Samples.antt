-- ===== src/Router/Samples.antt =====
-- The laws of the route packets at a concrete registration.
use go_ads.Common.{◌≡◌, refl, [], ◌∷◌, ◌++◌, Bytes, arith, ok, ◌+◌}
use go_ads.Common.Words.{put_le}
use go_ads.Router.Packet.{Header, route_cookie, response_flag, put_header, put_tag, put_tags}
use go_ads.Router.Route.{
  service_add, tag_response_error, append_null, build_route_packet, refused, parse_route_response,
}
use go_ads.Router.Route.Laws.{parse_route_response-put}
use go_ads.Router.Route.Request.{read_packet, request, read_packet-build_route_packet}

abbrev net_id : Bytes
net_id = 192 ∷ 168 ∷ 0 ∷ 10 ∷ 1 ∷ 1 ∷ []

abbrev refusal : Header
refusal = record {
  cookie = route_cookie;
  invoke_id = 7;
  service = response_flag + service_add;
  net_id = net_id;
  port = 10000;
  tag_count = 2;
}

parse_route_response-put_example :
    parse_route_response
      (put_header refusal
        (put_tags ((7, net_id) ∷ []) (put_tag (tag_response_error, put_le 4 0x704 ++ []) [])))
      7
    ≡ refused 0x704
unfolding put_le
parse_route_response-put_example =
    parse_route_response-put refusal ((7, net_id) ∷ []) 0x704 0 [] []
      ((omega arith, omega arith, omega arith), (refl, omega arith, omega arith)) refl refl refl
      ((omega arith, omega arith), tt) (refl, tt) (omega arith) (omega arith, omega arith)

read_packet-build_route_packet_example :
    read_packet (build_route_packet net_id (b'r' ∷ []) (b'h' ∷ []) (b'u' ∷ []) (b'p' ∷ []) 7)
    ≡ ok (
      request net_id 7,
      (7, net_id)
          ∷ (2, append_null (b'p' ∷ []))
          ∷ (5, append_null (b'h' ∷ []))
          ∷ (12, append_null (b'r' ∷ []))
          ∷ (13, append_null (b'u' ∷ []))
          ∷ [],
    )
read_packet-build_route_packet_example =
    read_packet-build_route_packet net_id (b'r' ∷ []) (b'h' ∷ []) (b'u' ∷ []) (b'p' ∷ []) 7 refl
      (omega arith) (omega arith) (omega arith) (omega arith) (omega arith)
