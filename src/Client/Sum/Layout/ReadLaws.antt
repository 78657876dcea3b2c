-- ===== src/Client/Sum/Layout/ReadLaws.antt =====
-- What `parseSumReadResponse` of cmd_sum.go makes of any response, and of one that keeps to the
-- protocol.
use go_ads.Common.{
  ℕ, zero, suc, ◌*◌, ◌%◌, ◌^◌, ◌≤◌, ◌≡◌, ◌≢◌, ◌⊎◌, inr, refl, List, [], ◌∷◌, Bytes, length, drop,
  arith, ok, length-take,
}
use go_ads.Defs.Code
use go_ads.Client.Sum.Layout.{
  ReadRequest, ReadResult, read_heads, invalid_rest, read_items, parse_sum_read_response,
}

-- A result fits its request: on success it has exactly as many bytes as were asked for, and on an
-- error none.
abbrev pub Answers : ReadRequest → ReadResult → Type 0
Answers r a =
    ((a.error ≡ Code.no_errors) × (length a.body ≡ r.read_length))
    ⊎ ((a.error ≢ Code.no_errors) × (a.body ≡ []))

abbrev pub AllAnswer : List ReadRequest → List ReadResult → Type 0
AllAnswer [] [] = Unit {0}
AllAnswer (r ∷ rs) (a ∷ answers) = Answers r a × AllAnswer rs answers
AllAnswer _ _ = ⊥

length-read_heads : (n : ℕ) (resp : Bytes) → length (read_heads n resp) ≡ n
unfolding read_heads
length-read_heads zero resp = refl
length-read_heads (suc n) resp = omega (arith, length-read_heads n (drop 8 resp))

invalid_rest-AllAnswer :
    (hs : List (ℕ × ℕ)) (rs : List ReadRequest)
    → length hs ≡ length rs
    → AllAnswer rs (invalid_rest hs)
unfolding invalid_rest
invalid_rest-AllAnswer [] [] h = tt
invalid_rest-AllAnswer [] (r ∷ rs) h = absurd (omega arith)
invalid_rest-AllAnswer (x ∷ hs) [] h = absurd (omega arith)
invalid_rest-AllAnswer (x ∷ hs) (r ∷ rs) h =
    (inr (omega arith, refl), invalid_rest-AllAnswer hs rs (omega arith))

mod_le : (n : ℕ) → n % 2 ^ 32 ≤ n
mod_le n = omega arith

read_items-AllAnswer :
    (hs : List (ℕ × ℕ)) (rs : List ReadRequest) (section : Bytes)
    → length hs ≡ length rs
    → AllAnswer rs (read_items hs rs section)
unfolding read_items
read_items-AllAnswer [] [] section h = tt
read_items-AllAnswer [] (r ∷ rs) section h = absurd (omega arith)
read_items-AllAnswer (x ∷ hs) [] section h = absurd (omega arith)
read_items-AllAnswer ((e, d) ∷ hs) (r ∷ rs) section h = ground (
  arith,
  invalid_rest-AllAnswer hs rs,
  mod_le (length section),
  length-take d section,
  read_items-AllAnswer hs rs (drop d section),
)

-- On any response at all there is one result for each request, in order, and each successful one
-- has exactly the requested number of bytes.
pub parse_sum_read_response_answers :
    (resp : Bytes) (rs : List ReadRequest) {results : List ReadResult}
    → parse_sum_read_response resp rs ≡ ok results
    → AllAnswer rs results
unfolding parse_sum_read_response
parse_sum_read_response_answers resp rs e = ground (
  arith,
  read_items-AllAnswer (read_heads (length rs) resp) rs (drop (length rs * 8) resp),
  length-read_heads (length rs) resp,
)
