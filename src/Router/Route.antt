-- ===== src/Router/Route.antt =====
-- The registration of a route: `buildRoutePacket`, `routeResponseIsOurs`, `parseRouteResponse` and
-- the policy of `routeManager`.
pub mod Laws
pub mod Request
use go_ads.Common.{
  ℕ, zero, suc, ◌+◌, ◌%◌, ◌^◌, ◌<◌, ◌≡◌, refl, Bool, true, false, not, ◌&&◌, ◌||◌, [], ◌∷◌, ◌++◌,
  List, Bytes, length, arith, Result, ok, err, ltb, leb, ◌==◌, if◌then◌else◌, IsU32, All, ap, sym,
  ◌∙◌, length-append, append-nil, ◌>>=◌, IsU16,
}
use go_ads.Common.Words.{put_le, get_le, get_le-put_le, length-put_le}
use go_ads.Router.Packet.{
  route_cookie, response_flag, build_tag, Header, get_header, get_tag, put_header, put_tag,
  put_tags, HeaderFits, TagFits, get_header-put_header, get_tag-put_tag,
}

abbrev pub service_add : ℕ
service_add = 6

abbrev pub tag_response_error : ℕ
tag_response_error = 1

unfoldable pub append_null : Bytes → Bytes
append_null data_ = data_ ++ (0 ∷ [])

unfoldable pub build_route_packet : Bytes → Bytes → Bytes → Bytes → Bytes → ℕ → Bytes
build_route_packet local_net_id route_name computer_name username password invoke_id =
    put_le 4 route_cookie
    ++ (put_le 4 invoke_id
        ++ (put_le 4 service_add
            ++ (local_net_id
                ++ (put_le 2 0
                    ++ (put_le 4 5
                        ++ (build_tag 7 local_net_id
                            ++ (build_tag 2 (append_null password)
                                ++ (build_tag 5 (append_null computer_name)
                                    ++ (build_tag 12 (append_null route_name)
                                        ++ build_tag 13 (append_null username))))))))))

-- The first three words, of at least 12 bytes.
unfoldable pub route_response_is_ours : Bytes → ℕ → Bool
route_response_is_ours bs invoke_id = if ltb (length bs) 12 then false else elim (get_le 4 bs) [
  | err _ ↦ false
  | ok (cookie, r1) ↦ if not (cookie == route_cookie) then false else elim (get_le 4 r1) [
    | err _ ↦ false
    | ok (id, r2) ↦ if not (id == invoke_id) then false else elim (get_le 4 r2) [
      | err _ ↦ false
      | ok (service, _) ↦ service == response_flag + service_add
    ]
  ]
]

-- mayRegister, markRegistered, allowHealingRegistration and shouldSkip
pub record RouteManager : Type 0 where
  pub name : Bytes
  pub skip_registration : Bool
  pub registered : Bool

unfoldable pub may_register : RouteManager → Bool
may_register r = not r.registered

unfoldable pub mark_registered : RouteManager → RouteManager
mark_registered r = record r { registered = true }

unfoldable pub allow_healing_registration : RouteManager → RouteManager
allow_healing_registration r = record r { registered = false }

unfoldable pub should_skip : RouteManager → Bool
should_skip r = r.skip_registration || length r.name == 0

-- What a response says: that the route is registered, that it is not, with the router's code, or
-- nothing that can be used.
pub data Verdict : Type 0 where
  accepted unusable : Verdict
  refused : ℕ → Verdict

-- The code at the front of an error tag of four bytes or more.
unfoldable pub error_verdict : Bytes → Verdict
error_verdict value = elim (get_le 4 value) [
  | err _ ↦ unusable
  | ok (code, _) ↦ if not (code == 0) then refused code else accepted
]

unfoldable pub scan_tags : ℕ → Bytes → Verdict
scan_tags zero bs = unusable
scan_tags (suc n) bs = elim (get_tag bs) [
  | err _ ↦ unusable
  | ok ((tag_id, value), rest) ↦
      let later = scan_tags n rest in
      if tag_id == tag_response_error && leb 4 (length value) then error_verdict value else later
]

unfoldable pub parse_route_response : Bytes → ℕ → Verdict
parse_route_response bs expected = elim (get_header bs) [
  | err _ ↦ unusable
  | ok (h, rest) ↦
      if not (h.cookie == route_cookie)
      then unusable
      else if not (h.invoke_id == expected)
      then unusable
      else if not (h.service == response_flag + service_add)
      then unusable
      else scan_tags h.tag_count rest
]
