-- ===== src/Router/Route/Request.antt =====
-- The packet of a registration, as the device reads it.
use go_ads.Common.{
  ℕ, zero, suc, ◌%◌, ◌^◌, ◌<◌, ◌≡◌, refl, [], ◌∷◌, ◌++◌, List, Bytes, length, arith, Result, ok,
  IsU32, All, sym, ◌∙◌, length-append, append-nil, ◌>>=◌, IsU16,
}
use go_ads.Common.Words.{put_le}
use go_ads.Router.Packet.{
  route_cookie, build_tag, Header, get_header, get_tag, put_header, put_tag, put_tags, HeaderFits,
  TagFits, get_header-put_header, get_tag-put_tag,
}
use go_ads.Router.Route.{service_add, append_null, build_route_packet}

-- The tags of a packet, as a device reads them.
unfoldable pub get_tags : ℕ → Bytes → Result (List (ℕ × Bytes) × Bytes)
get_tags zero bs = ok ([], bs)
get_tags (suc n) bs = do (t, r1) ← get_tag bs; (ts, rest) ← get_tags n r1; ok (t ∷ ts, rest)

unfoldable pub read_packet : Bytes → Result (Header × List (ℕ × Bytes))
read_packet bs = do (h, r1) ← get_header bs; (ts, _) ← get_tags h.tag_count r1; ok (h, ts)

get_tags-put_tags :
    (ts : List (ℕ × Bytes)) (rest : Bytes)
    → All TagFits ts
    → get_tags (length ts) (put_tags ts rest) ≡ ok (ts, rest)
unfolding get_tags put_tags
get_tags-put_tags [] rest f = refl
get_tags-put_tags (t ∷ ts) rest (f, fs) =
    rw (get_tag-put_tag t (put_tags ts rest) f, get_tags-put_tags ts rest fs)

build_tag-put_tag :
    (tag_id : ℕ) (value rest : Bytes)
    → IsU16 (length value)
    → build_tag tag_id value ++ rest ≡ put_tag (tag_id, value) rest
unfolding build_tag put_tag put_le
build_tag-put_tag tag_id value rest h =
    let small : length value % 2 ^ 16 ≡ length value = omega arith in rw small

abbrev pub request : Bytes → ℕ → Header
request net_id invoke_id = record {
  cookie = route_cookie;
  invoke_id = invoke_id;
  service = service_add;
  net_id = net_id;
  port = 0;
  tag_count = 5;
}

terminated : (text : Bytes) → length text < 65535 → IsU16 (length (append_null text))
unfolding append_null
terminated text h = omega (arith, length-append text (0 ∷ []))

last_tag :
    (tag_id : ℕ) (value : Bytes)
    → IsU16 (length value)
    → build_tag tag_id value ≡ put_tag (tag_id, value) []
last_tag tag_id value h =
    sym (append-nil (build_tag tag_id value)) ∙ build_tag-put_tag tag_id value [] h

module _ (net_id route_name computer_name username password : Bytes) (invoke_id : ℕ)
    (n : length net_id ≡ 6) (r : length route_name < 65535) (c : length computer_name < 65535)
    (u : length username < 65535) (p : length password < 65535) (i : IsU32 invoke_id) where
  abbrev tags : List (ℕ × Bytes)
  tags =
      (7, net_id)
      ∷ (2, append_null password)
      ∷ (5, append_null computer_name)
      ∷ (12, append_null route_name)
      ∷ (13, append_null username)
      ∷ []

  packet_shape :
      build_route_packet net_id route_name computer_name username password invoke_id
      ≡ put_header (request net_id invoke_id) (put_tags tags [])
  unfolding build_route_packet put_header put_tags
  packet_shape = rw (
    last_tag 13 (append_null username) (terminated username u),
    build_tag-put_tag 12 (append_null route_name) _ (terminated route_name r),
    build_tag-put_tag 5 (append_null computer_name) _ (terminated computer_name c),
    build_tag-put_tag 2 (append_null password) _ (terminated password p),
    build_tag-put_tag 7 net_id _ (omega arith),
  )

  tags_fit : All TagFits tags
  tags_fit = (
    (omega arith, omega arith),
    (
      (omega arith, terminated password p),
      (
        (omega arith, terminated computer_name c),
        ((omega arith, terminated route_name r), ((omega arith, terminated username u), tt)),
      ),
    ),
  )

  request_fits : HeaderFits (request net_id invoke_id)
  request_fits = ((omega arith, i, omega arith), (n, omega arith, omega arith))

  packet_read :
      read_packet (put_header (request net_id invoke_id) (put_tags tags []))
      ≡ ok (request net_id invoke_id, tags)
  unfolding read_packet
  packet_read = rw (
    get_header-put_header (request net_id invoke_id) (put_tags tags []) request_fits,
    get_tags-put_tags tags [] tags_fit,
  )

-- The device that reads a registration finds the id of the request, the NetID and the five texts,
-- each with its NUL, where the NetID has six bytes and the texts are shorter than 65535 bytes.
pub read_packet-build_route_packet :
    (net_id route_name computer_name username password : Bytes) (invoke_id : ℕ)
    → length net_id ≡ 6
    → length route_name < 65535
    → length computer_name < 65535
    → length username < 65535
    → length password < 65535
    → IsU32 invoke_id
    → read_packet (build_route_packet net_id route_name computer_name username password invoke_id)
      ≡ ok (
        request net_id invoke_id,
        (7, net_id)
            ∷ (2, append_null password)
            ∷ (5, append_null computer_name)
            ∷ (12, append_null route_name)
            ∷ (13, append_null username)
            ∷ [],
      )
read_packet-build_route_packet net_id route_name computer_name username password invoke_id n r c u p
      i =
    rw (packet_shape net_id route_name computer_name username password invoke_id n r c u p i)
      (packet_read net_id route_name computer_name username password invoke_id n r c u p i)
