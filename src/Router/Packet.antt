-- ===== src/Router/Packet.antt =====
-- What the two services share: the header, and tags of an id, a length and so many bytes.
use go_ads.Common.{
  ℕ, ◌+◌, ◌%◌, ◌^◌, ◌≡◌, [], ◌∷◌, ◌++◌, List, Bytes, length, arith, Result, ok, err, ◌>>=◌, IsU16,
  IsU32, ltb, if◌then◌else◌, malformed, length-append, le→ltb-false, false,
}
use go_ads.Common.Words.{
  put_le, get_le, get_bytes, get_le-put_le, get_bytes-append, get_bytes_exact,
}

abbrev pub route_cookie : ℕ
route_cookie = 0x71146603

-- The RESPONSE flag of a service id.
abbrev pub response_flag : ℕ
response_flag = 0x80000000

-- The length is cut to 16 bits.
unfoldable pub build_tag : ℕ → Bytes → Bytes
build_tag tag_id value = put_le 2 tag_id ++ (put_le 2 (length value % 2 ^ 16) ++ value)

pub record Header : Type 0 where
  pub cookie : ℕ
  pub invoke_id : ℕ
  pub service : ℕ
  pub net_id : Bytes
  pub port : ℕ
  pub tag_count : ℕ

-- The fields at their offsets in the first 24 bytes.
unfoldable pub get_header : Bytes → Result (Header × Bytes)
get_header bs = if ltb (length bs) 24 then err malformed else do
  (cookie, r1) ← get_le 4 bs
  (invoke_id, r2) ← get_le 4 r1
  (service, r3) ← get_le 4 r2
  (net_id, r4) ← get_bytes 6 r3
  (port, r5) ← get_le 2 r4
  (tag_count, rest) ← get_le 4 r5
  ok (
    record {
      cookie = cookie;
      invoke_id = invoke_id;
      service = service;
      net_id = net_id;
      port = port;
      tag_count = tag_count;
    },
    rest,
  )

unfoldable pub get_tag : Bytes → Result ((ℕ × Bytes) × Bytes)
get_tag bs = do
  (tag_id, r1) ← get_le 2 bs
  (tag_length, r2) ← get_le 2 r1
  (value, rest) ← get_bytes tag_length r2
  ok ((tag_id, value), rest)

-- A packet's header and tags, as a sender writes them.
unfoldable pub put_header : Header → Bytes → Bytes
put_header h rest =
    put_le 4 h.cookie
    ++ (put_le 4 h.invoke_id
        ++ (put_le 4 h.service
            ++ (h.net_id ++ (put_le 2 h.port ++ (put_le 4 h.tag_count ++ rest)))))

unfoldable pub put_tag : ℕ × Bytes → Bytes → Bytes
put_tag (tag_id, value) rest = put_le 2 tag_id ++ (put_le 2 (length value) ++ (value ++ rest))

unfoldable pub put_tags : List (ℕ × Bytes) → Bytes → Bytes
put_tags [] rest = rest
put_tags (t ∷ ts) rest = put_tag t (put_tags ts rest)

abbrev pub HeaderFits : Header → Type 0
HeaderFits h =
    (IsU32 h.cookie × IsU32 h.invoke_id × IsU32 h.service)
    × ((length h.net_id ≡ 6) × IsU16 h.port × IsU32 h.tag_count)

abbrev pub TagFits : ℕ × Bytes → Type 0
TagFits t = IsU16 t.0 × IsU16 (length t.1)

pub length-put_header :
    (h : Header) (rest : Bytes) → HeaderFits h → length (put_header h rest) ≡ 24 + length rest
unfolding put_header put_le
length-put_header h rest (_, (n, _, _)) =
    omega (arith, n, length-append h.net_id (put_le 2 h.port ++ (put_le 4 h.tag_count ++ rest)))

pub get_header-put_header :
    (h : Header) (rest : Bytes) → HeaderFits h → get_header (put_header h rest) ≡ ok (h, rest)
get_header-put_header h rest f =
    let ((a, b, c), (n, p, t)) = f in
    let long : ltb (length (put_header h rest)) 24 ≡ false =
      le→ltb-false (length (put_header h rest)) 24 (omega (arith, length-put_header h rest f)) in
    unfold get_header in
    rw long (
      unfold put_header in
      rw (
        get_le-put_le 4 h.cookie _ a,
        get_le-put_le 4 h.invoke_id _ b,
        get_le-put_le 4 h.service _ c,
        get_bytes_exact 6 h.net_id _ n,
        get_le-put_le 2 h.port _ p,
        get_le-put_le 4 h.tag_count rest t,
      ))

pub get_tag-put_tag :
    (t : ℕ × Bytes) (rest : Bytes) → TagFits t → get_tag (put_tag t rest) ≡ ok (t, rest)
unfolding get_tag put_tag
get_tag-put_tag (tag_id, value) rest (a, b) =
    rw (get_le-put_le 2 tag_id _ a, get_le-put_le 2 (length value) _ b, get_bytes-append value rest)
