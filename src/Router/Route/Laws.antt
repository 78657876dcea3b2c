-- ===== src/Router/Route/Laws.antt =====
-- What the parser makes of a well-formed answer.
use go_ads.Common.{
  ℕ, zero, suc, ◌+◌, ◌≡◌, true, false, ◌&&◌, [], ◌∷◌, ◌++◌, List, Bytes, length, arith, leb, ◌==◌,
  if◌then◌else◌, IsU32, All, ap, ◌∙◌, length-append,
}
use go_ads.Common.Words.{put_le, get_le-put_le, length-put_le}
use go_ads.Router.Packet.{
  route_cookie, response_flag, Header, put_header, put_tag, put_tags, HeaderFits, TagFits,
  get_header-put_header, get_tag-put_tag,
}
use go_ads.Router.Route.{
  accepted, refused, service_add, tag_response_error, error_verdict, scan_tags,
  parse_route_response,
}

-- A tag that is not an error tag with a code.
abbrev pub IsOther : ℕ × Bytes → Type 0
IsOther t = (t.0 == tag_response_error && leb 4 (length t.1)) ≡ false

scan_step :
    (n : ℕ) (t : ℕ × Bytes) (rest : Bytes)
    → TagFits t
    → scan_tags (suc n) (put_tag t rest) ≡ (
        if t.0 == tag_response_error && leb 4 (length t.1)
        then error_verdict t.1
        else scan_tags n rest)
unfolding scan_tags
scan_step n t rest f = rw (scan_tags, get_tag-put_tag t rest f)

scan_others :
    (ts : List (ℕ × Bytes)) (k n : ℕ) (rest : Bytes)
    → All TagFits ts
    → All IsOther ts
    → k ≡ length ts + n
    → scan_tags k (put_tags ts rest) ≡ scan_tags n rest
unfolding put_tags
scan_others [] k n rest f o e = ap (λ i. scan_tags i rest) (omega arith)
scan_others (t ∷ ts) zero n rest f o e = absurd (omega arith)
scan_others (t ∷ ts) (suc k) n rest (f, fs) (o, os) e =
    scan_step k t (put_tags ts rest) f ∙ rw o (scan_others ts k n rest fs os (omega arith))

error_verdict-put :
    (code : ℕ) (more : Bytes)
    → IsU32 code
    → error_verdict (put_le 4 code ++ more) ≡ (if code == 0 then accepted else refused code)
unfolding error_verdict
error_verdict-put code more u = rw (error_verdict, get_le-put_le 4 code more u) (ground arith)

-- A response to the request with that id, with any tags before the first error tag and anything
-- after it, registers the route exactly where the error tag's code is 0, and otherwise gives the
-- code.
pub parse_route_response-put :
    (h : Header) (before : List (ℕ × Bytes)) (code later : ℕ) (more after : Bytes)
    → HeaderFits h
    → h.cookie ≡ route_cookie
    → h.service ≡ response_flag + service_add
    → h.tag_count ≡ length before + suc later
    → All TagFits before
    → All IsOther before
    → IsU32 code
    → TagFits (tag_response_error, put_le 4 code ++ more)
    → parse_route_response
        (put_header h (put_tags before (put_tag (tag_response_error, put_le 4 code ++ more) after)))
        h.invoke_id
      ≡ (if code == 0 then accepted else refused code)
unfolding parse_route_response
parse_route_response-put h before code later more after f c s n fs os u g =
    let t : ℕ × Bytes = (tag_response_error, put_le 4 code ++ more) in
    let tail = put_tag t after in
    let long : leb 4 (length (put_le 4 code ++ more)) ≡ true =
      ground (arith, length-append (put_le 4 code) more, length-put_le 4 code) in
    let last : scan_tags (suc later) tail ≡ (if code == 0 then accepted else refused code) =
      scan_step later t after g ∙ rw long (error_verdict-put code more u) in
    rw (parse_route_response, get_header-put_header h (put_tags before tail) f)
      (ground (arith, c, s, scan_others before h.tag_count (suc later) tail fs os n, last))
