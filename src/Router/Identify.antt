-- ===== src/Router/Identify.antt =====
-- The identification of a device: `buildIdentifyPacket`, `identifyResponseIsOurs`,
-- `parseIdentifyResponse`, `trimCString` and `RuntimePort` of identify.go, and what a session makes
-- of the answer, `applyDiscoveredIdentity` and `applyTargetCheck` of session.go.
use go_ads.Common.{
  ℕ, zero, suc, ◌+◌, ◌≡◌, refl, Bool, false, not, ◌&&◌, [], ◌∷◌, ◌++◌, List, Bytes, length,
  replicate, arith, Result, ok, err, malformed, leb, ◌==◌, if◌then◌else◌, All,
}
use go_ads.Common.Words.{put_le, get_le}
use go_ads.Common.Dict.{Dict, ℕ-Key, insert, eq_text}
use go_ads.Common.Decimal.{format_uint}
use go_ads.Router.Packet.{
  route_cookie, response_flag, Header, get_header, get_tag, put_header, put_tags, HeaderFits,
  TagFits, get_header-put_header, get_tag-put_tag,
}

abbrev pub service_identify : ℕ
service_identify = 1

abbrev tag_computer_name : ℕ
tag_computer_name = 5

abbrev tag_system_version : ℕ
tag_system_version = 3

unfoldable pub build_identify_packet : ℕ → Bytes
build_identify_packet invoke_id =
    put_le 4 route_cookie ++ (put_le 4 invoke_id ++ (put_le 4 service_identify ++ replicate 12 0))

unfoldable pub identify_response_is_ours : Bytes → ℕ → Bool
identify_response_is_ours bs invoke_id = elim (get_header bs) [
  | err _ ↦ false
  | ok (h, _) ↦
      h.cookie == route_cookie
      && (h.invoke_id == invoke_id && h.service == response_flag + service_identify)
]

unfoldable pub trim_c_string : Bytes → Bytes
trim_c_string [] = []
trim_c_string (c ∷ s) = if c == 0 then [] else c ∷ trim_c_string s

pub record RemoteIdentity : Type 0 where
  pub net_id : Bytes
  pub port : ℕ
  pub host_name : Bytes
  pub major : ℕ
  pub minor : ℕ
  pub build : ℕ
  pub tags : Dict ℕ Bytes

-- Two bytes and a word, of a version tag of four bytes or more.
unfoldable pub with_version : Bytes → RemoteIdentity → RemoteIdentity
with_version value id = elim (get_le 1 value) [
  | err _ ↦ id
  | ok (major, r1) ↦ elim (get_le 1 r1) [
    | err _ ↦ id
    | ok (minor, r2) ↦ elim (get_le 2 r2) [
      | err _ ↦ id
      | ok (build, _) ↦ record id { major = major; minor = minor; build = build }
    ]
  ]
]

unfoldable pub learn_tag : RemoteIdentity → ℕ × Bytes → RemoteIdentity
learn_tag id (tag_id, value) =
    let tagged = record id { tags = insert tag_id value id.tags } in
    if tag_id == tag_computer_name
    then record tagged { host_name = trim_c_string value }
    else if tag_id == tag_system_version && leb 4 (length value)
    then with_version value tagged
    else tagged

unfoldable pub learn_tags : ℕ → Bytes → RemoteIdentity → Result RemoteIdentity
learn_tags zero bs id = ok id
learn_tags (suc n) bs id = elim (get_tag bs) [
  | err e ↦ err e
  | ok (t, rest) ↦ learn_tags n rest (learn_tag id t)
]

abbrev pub nobody : Bytes → ℕ → RemoteIdentity
nobody net_id port = record {
  net_id = net_id;
  port = port;
  host_name = [];
  major = 0;
  minor = 0;
  build = 0;
  tags = [];
}

unfoldable pub parse_identify_response : Bytes → ℕ → Result RemoteIdentity
parse_identify_response bs expected = elim (get_header bs) [
  | err e ↦ err e
  | ok (h, rest) ↦
      if not (h.cookie == route_cookie)
      then err malformed
      else if not (h.invoke_id == expected)
      then err malformed
      else if not (h.service == response_flag + service_identify)
      then err malformed
      else if eq_text h.net_id (replicate 6 0)
      then err malformed
      else learn_tags h.tag_count rest (nobody h.net_id h.port)
]

unfoldable pub version : RemoteIdentity → Bytes
version id =
    format_uint id.major ++ (b'.' ∷ (format_uint id.minor ++ (b'.' ∷ format_uint id.build)))

unfoldable pub runtime_port : RemoteIdentity → ℕ
runtime_port id = if id.major == 2 then 801 else 851

pub record Target : Type 0 where
  pub net_id : Bytes
  pub port : ℕ

-- The missing halves of the address; without a version there is no conventional port.
unfoldable pub apply_discovered_identity : RemoteIdentity → Target → Result (Unit {0}) × Target
apply_discovered_identity id t =
    let t' = if eq_text t.net_id (replicate 6 0) then record t { net_id = id.net_id } else t in
    if t'.port == 0
    then (if id.major == 0
        then (err malformed, t')
        else (ok tt, record t' { port = runtime_port id }))
    else (ok tt, t')

-- `strict` is TargetCheckError.
unfoldable pub apply_target_check : Bool → RemoteIdentity → Target → Result (Unit {0})
apply_target_check strict id t =
    if eq_text id.net_id t.net_id then ok tt else if strict then err malformed else ok tt

-- What the tags tell, one after the other.
abbrev pub learned : RemoteIdentity → List (ℕ × Bytes) → RemoteIdentity
learned id [] = id
learned id (t ∷ ts) = learned (learn_tag id t) ts

learn_tags-put_tags :
    (ts : List (ℕ × Bytes)) (id : RemoteIdentity) (rest : Bytes)
    → All TagFits ts
    → learn_tags (length ts) (put_tags ts rest) id ≡ ok (learned id ts)
unfolding learn_tags put_tags
learn_tags-put_tags [] id rest f = refl
learn_tags-put_tags (t ∷ ts) id rest (f, fs) =
    rw (learn_tags, get_tag-put_tag t (put_tags ts rest) f)
      (learn_tags-put_tags ts (learn_tag id t) rest fs)

-- A device's answer to the request with that id, of a NetID that is not zero, is read as its
-- address and what all its tags tell, whatever follows them.
pub parse_identify_response-put :
    (h : Header) (ts : List (ℕ × Bytes)) (after : Bytes)
    → HeaderFits h
    → h.cookie ≡ route_cookie
    → h.service ≡ response_flag + service_identify
    → eq_text h.net_id (replicate 6 0) ≡ false
    → h.tag_count ≡ length ts
    → All TagFits ts
    → parse_identify_response (put_header h (put_tags ts after)) h.invoke_id
      ≡ ok (learned (nobody h.net_id h.port) ts)
unfolding parse_identify_response
parse_identify_response-put h ts after f c s z n fs =
    rw (parse_identify_response, get_header-put_header h (put_tags ts after) f, z, n)
      (ground (arith, c, s, learn_tags-put_tags ts (nobody h.net_id h.port) after fs))

-- An address that was given is kept, and one that is accepted has a port.
pub apply_discovered_identity_lem :
    (id : RemoteIdentity) (t : Target)
    → (apply_discovered_identity id t).0 ≡ ok tt
    → (((apply_discovered_identity id t).1.port == 0) ≡ false)
      × ((apply_discovered_identity id t).1.port
          ≡ (if t.port == 0 then runtime_port id else t.port))
      × ((apply_discovered_identity id t).1.net_id
          ≡ (if eq_text t.net_id (replicate 6 0) then id.net_id else t.net_id))
unfolding apply_discovered_identity runtime_port
apply_discovered_identity_lem id t h = ground arith
