-- ===== src/Client/Samples.antt =====
-- A PLC with two readable items, and the laws of the batched read at it.
use go_ads.Common.{
  ℕ, ◌≡◌, inl, inr, refl, List, [], ◌∷◌, ◌++◌, Bytes, All, arith, ◌==◌, if◌then◌else◌, Result, ok,
}
use go_ads.Common.Words.{put_le, get_le}
use go_ads.Defs.Command
use go_ads.Client.Wire.{read_request}
use go_ads.Client.Conn.{Conn, unchecked}
use go_ads.Client.Sum.Layout.{ReadRequest, parse_sum_read_response, total_read_length}
use go_ads.Client.Sum.Layout.ReadLaws.{AllAnswer, parse_sum_read_response_answers}
use go_ads.Client.Sum.Layout.ReadReply.{
  Item, put_heads, put_bodies, seen_all, parse_sum_read_response-put,
}
use go_ads.Client.Sum.Read.{sum_read, sum_read_fallback, response_total}
use go_ads.Client.Sum.Read.Honest.{
  read_response, framed, batch_body, map_memory, sum_read-eq-fallback, ServesEach, ServesBatch,
}

abbrev first : ReadRequest
first = record { group = 0x4020; offset = 8; read_length = 2 }

abbrev second : ReadRequest
second = record { group = 0x4020; offset = 12; read_length = 4 }

abbrev requests : List ReadRequest
requests = first ∷ second ∷ []

-- The two bytes of the first variable; the second is gone.
abbrev memory : ReadRequest → Item
memory r =
    if r.offset == 8
    then record { code = 0; sent = 0x34 ∷ 0x12 ∷ [] }
    else record { code = 0x710; sent = [] }

-- The byte of the offset tells the two single reads apart.
abbrev offset_byte : Bytes → ℕ
offset_byte (g0 ∷ g1 ∷ g2 ∷ g3 ∷ o ∷ rest) = o
offset_byte _ = 0

abbrev serve : ℕ → Bytes → Unit {0} → Result Bytes × Unit {0}
serve command payload w = (
  if command == Command.read
      then ok (read_response (memory (record first { offset = offset_byte payload })))
      else ok (framed (batch_body (map_memory memory requests))),
  w,
)

abbrev fresh : Conn (Unit {0})
fresh = record { caps = unchecked; world = tt }

parse_sum_read_response_answers_example :
    AllAnswer requests
      (record { error = 0; body = 0x34 ∷ 0x12 ∷ [] } ∷ record { error = 0x710; body = [] } ∷ [])
unfolding parse_sum_read_response get_le
parse_sum_read_response_answers_example =
    parse_sum_read_response_answers
      (0 ∷ 0 ∷ 0 ∷ 0 ∷ 2 ∷ 0 ∷ 0 ∷ 0 ∷ 0x10 ∷ 7 ∷ 0 ∷ 0 ∷ 0 ∷ 0 ∷ 0 ∷ 0 ∷ 0x34 ∷ 0x12 ∷ []) requests
      refl

parse_sum_read_response-put_example :
    parse_sum_read_response
      (put_heads (map_memory memory requests)
        ++ (put_bodies (map_memory memory requests) ++ (5 ∷ [])))
      requests
    ≡ ok (seen_all (map_memory memory requests))
unfolding put_bodies
parse_sum_read_response-put_example =
    parse_sum_read_response-put requests (map_memory memory requests) (5 ∷ [])
      ((omega arith, inr refl), ((omega arith, inl (omega arith)), tt)) (omega arith)

served : All (ServesEach serve memory) requests
unfolding put_le read_request
served = (
  ((λ w. refl), (omega arith, inr refl), omega arith),
  (((λ w. refl), (omega arith, inl (omega arith)), omega arith), tt),
)

batch_served : ServesBatch serve memory requests
batch_served w = refl

sum_read-eq-fallback_example :
    ((sum_read serve requests fresh).0 ≡ (sum_read_fallback serve requests fresh).0)
    × ((sum_read serve requests fresh).0 ≡ ok (seen_all (map_memory memory requests)))
unfolding response_total total_read_length put_heads put_bodies put_le
sum_read-eq-fallback_example =
    sum_read-eq-fallback serve memory requests fresh served batch_served (omega arith) (omega arith)
      refl
