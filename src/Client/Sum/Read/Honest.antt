-- ===== src/Client/Sum/Read/Honest.antt =====
-- `SumRead` of cmd_sum.go against a PLC that serves its memory: the batched read beside the
-- individual reads that stand in for it.
use go_ads.Common.{
  ℕ, ◌-◌, ◌≡◌, ◌≤◌, ◌^◌, refl, List, [], ◌∷◌, ◌++◌, Bytes, length, arith, ◌==◌, if◌then◌else◌,
  Result, ok, err, device, IsU32, append-nil, All, length-append,
}
use go_ads.Common.Words.{put_le}
use go_ads.Defs.Code
use go_ads.Defs.Command
use go_ads.Defs.Group
use go_ads.Client.Wire.{read_request, write_read_request, parse_data_response}
use go_ads.Client.Wire.Laws.{parse_data_response_ok, parse_data_response_error}
use go_ads.Client.Conn.{Conn}
use go_ads.Client.Rpc.{read, write_read}
use go_ads.Client.Sum.Layout.{ReadRequest, read_section}
use go_ads.Client.Sum.Layout.ReadReply.{
  Item, seen, seen_all, put_heads, put_bodies, Fulfils, AllFulfil, parse_sum_read_response-put,
}
use go_ads.Client.Sum.Read.{
  sum_read_fallback, sum_attempt, sum_read_probe, sum_read, response_total, read_result,
}

-- The response to a single Read, and to the batched one.
unfoldable pub read_response : Item → Bytes
read_response i = put_le 4 i.code ++ (put_le 4 (length i.sent) ++ i.sent)

unfoldable pub framed : Bytes → Bytes
framed body = put_le 4 0 ++ (put_le 4 (length body) ++ body)

parse-read_response :
    (i : Item)
    → IsU32 i.code
    → IsU32 (length i.sent)
    → parse_data_response (read_response i)
      ≡ (if i.code == Code.no_errors then ok i.sent else err (device i.code))
unfolding read_response
parse-read_response i f l = ground (
  arith,
  parse_data_response_error i.code (length i.sent) i.sent f l,
  parse_data_response_ok i.sent [] l,
  append-nil i.sent,
)

parse-framed : (body : Bytes) → IsU32 (length body) → parse_data_response (framed body) ≡ ok body
unfolding framed
parse-framed body l = rw (append-nil body) at (parse_data_response_ok body [] l)

abbrev pub batch_body : List Item → Bytes
batch_body is = put_heads is ++ put_bodies is

abbrev pub map_memory : (ReadRequest → Item) → List ReadRequest → List Item
map_memory mem [] = []
map_memory mem (r ∷ rs) = mem r ∷ map_memory mem rs

module _ {S : Type 0} (ask : ℕ → Bytes → S → Result Bytes × S) (mem : ReadRequest → Item) where
  -- The PLC answers a Read with its memory and stays as it is, and has the memory's item fit the
  -- request.
  abbrev pub ServesEach : ReadRequest → Type 0
  ServesEach r =
      ((w : S)
        → ask Command.read (read_request r.group r.offset r.read_length) w
          ≡ (ok (read_response (mem r)), w))
      × Fulfils r (mem r)
      × IsU32 (length (mem r).sent)

  -- So it answers a SumReadEx2.
  abbrev pub ServesBatch : List ReadRequest → Type 0
  ServesBatch rs =
      (w : S)
      → ask Command.read_write
          (write_read_request Group.sumup_read_ex2 (length rs) (response_total rs)
            (read_section rs))
          w
        ≡ (ok (framed (batch_body (map_memory mem rs))), w)

  AllFulfil-map : (rs : List ReadRequest) → All ServesEach rs → AllFulfil rs (map_memory mem rs)
  AllFulfil-map [] h = tt
  AllFulfil-map (r ∷ rs) ((a, f, l), hs) = (f, AllFulfil-map rs hs)

  read_one :
      (r : ReadRequest) (c : Conn S)
      → ServesEach r
      → (read_result (read ask r.group r.offset r.read_length c).0 ≡ seen (mem r))
        × ((read ask r.group r.offset r.read_length c).1 ≡ c)
  unfolding read
  read_one r c (a, (f, g), l) = ground (arith, a c.world, parse-read_response (mem r) f l)

  -- The individual reads see the memory.
  pub sum_read_fallback-memory :
      (rs : List ReadRequest) (c : Conn S)
      → All ServesEach rs
      → sum_read_fallback ask rs c ≡ (ok (seen_all (map_memory mem rs)), c)
  unfolding sum_read_fallback seen_all
  sum_read_fallback-memory [] c h = refl
  sum_read_fallback-memory (r ∷ rs) c (h, hs) =
      let (e, k) = read_one r c h in ground (arith, e, k, sum_read_fallback-memory rs c hs)

  -- The first batch to a PLC that serves SumReadEx2 settles on that command and sees what
  -- individual reads would see, each item with its data or with its code, if the response fits 32
  -- bits.
  pub sum_read-eq-fallback :
      (rs : List ReadRequest) (c : Conn S)
      → All ServesEach rs
      → ServesBatch rs
      → response_total rs ≤ 2 ^ 32 - 1
      → IsU32 (length (batch_body (map_memory mem rs)))
      → c.caps.sum_read_cmd ≡ 0
      → ((sum_read ask rs c).0 ≡ (sum_read_fallback ask rs c).0)
        × ((sum_read ask rs c).0 ≡ ok (seen_all (map_memory mem rs)))
  unfolding sum_read sum_read_probe sum_attempt write_read
  sum_read-eq-fallback [] c h b t l z = (refl, unfold seen_all in refl)
  sum_read-eq-fallback (r ∷ rs) c h b t l z =
      let is : List Item = map_memory mem (r ∷ rs) in
      let bodies : IsU32 (length (put_bodies is ++ [])) =
        rw append-nil (omega (arith, length-append (put_heads is) (put_bodies is))) in
      let parsed = parse_sum_read_response-put (r ∷ rs) is [] (AllFulfil-map (r ∷ rs) h) bodies in
      ground (
        arith,
        sum_read_fallback-memory (r ∷ rs) c h,
        b c.world,
        parse-framed (batch_body is) l,
        parsed,
        append-nil (put_bodies is),
      )
