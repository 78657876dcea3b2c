-- ===== src/Client/Sum/Layout/ReadReply.antt =====
-- `parseSumReadResponse` of cmd_sum.go on a response that keeps to the protocol: the heads of all
-- items, then the data of each, as long as its head says.
use go_ads.Common.{
  ℕ, suc, ◌*◌, ◌≤◌, ◌≡◌, ◌≢◌, ◌⊎◌, refl, List, [], ◌∷◌, ◌++◌, append_assoc, Bytes, length, take,
  drop, arith, ltb, ◌==◌, if◌then◌else◌, ok, IsU32, length-append, take-append_length,
  drop-append_length, le→ltb-false, ap, sym, false,
}
use go_ads.Common.Words.{put_le, get_le-put_le, length-put_le}
use go_ads.Defs.Code
use go_ads.Client.Sum.Layout.{
  ReadRequest, ReadResult, u32, read_heads, read_items, parse_sum_read_response,
}

-- One item of a PLC's answer: its code, and the data that it puts into the data section.
pub record Item : Type 0 where
  pub code : ℕ
  pub sent : Bytes

-- The response that carries the items.
unfoldable pub put_heads : List Item → Bytes
put_heads [] = []
put_heads (i ∷ is) = put_le 4 i.code ++ (put_le 4 (length i.sent) ++ put_heads is)

unfoldable pub put_bodies : List Item → Bytes
put_bodies [] = []
put_bodies (i ∷ is) = i.sent ++ put_bodies is

-- What a caller is to see of an item.
abbrev pub seen : Item → ReadResult
seen i = record { error = i.code; body = if i.code == Code.no_errors then i.sent else [] }

unfoldable pub seen_all : List Item → List ReadResult
seen_all [] = []
seen_all (i ∷ is) = seen i ∷ seen_all is

-- An item answers a request if it fails, with whatever data, or has the requested length.
abbrev pub Fulfils : ReadRequest → Item → Type 0
Fulfils r i = IsU32 i.code × ((i.code ≢ Code.no_errors) ⊎ (length i.sent ≡ r.read_length))

abbrev pub AllFulfil : List ReadRequest → List Item → Type 0
AllFulfil [] [] = Unit {0}
AllFulfil (r ∷ rs) (i ∷ is) = Fulfils r i × AllFulfil rs is
AllFulfil _ _ = ⊥

abbrev heads : List Item → List (ℕ × ℕ)
heads [] = []
heads (i ∷ is) = (i.code, length i.sent) ∷ heads is

pub u32-put_le : (v : ℕ) (rest : Bytes) → IsU32 v → u32 (put_le 4 v ++ rest) ≡ v
unfolding u32
u32-put_le v rest h = rw (u32, get_le-put_le 4 v rest h)

pub drop_word : (v : ℕ) (rest : Bytes) → drop 4 (put_le 4 v ++ rest) ≡ rest
drop_word v rest = rw (length-put_le 4 v) at (drop-append_length (put_le 4 v) rest)

pub drop_head : (c l : ℕ) (rest : Bytes) → drop 8 (put_le 4 c ++ (put_le 4 l ++ rest)) ≡ rest
unfolding put_le
drop_head c l rest = refl

length-put_bodies_lem :
    (rs : List ReadRequest) (is : List Item) → AllFulfil rs is → length is ≡ length rs
length-put_bodies_lem [] [] h = refl
length-put_bodies_lem [] (i ∷ is) h = absurd h
length-put_bodies_lem (r ∷ rs) [] h = absurd h
length-put_bodies_lem (r ∷ rs) (i ∷ is) (h, hs) = ap suc (length-put_bodies_lem rs is hs)

length-put_heads : (is : List Item) → length (put_heads is) ≡ length is * 8
unfolding put_heads
length-put_heads [] = refl
length-put_heads (i ∷ is) = ground (
  arith,
  length-append (put_le 4 i.code) (put_le 4 (length i.sent) ++ put_heads is),
  length-append (put_le 4 (length i.sent)) (put_heads is),
  length-put_le 4 i.code,
  length-put_le 4 (length i.sent),
  length-put_heads is,
)

read_heads-put_heads :
    (rs : List ReadRequest) (is : List Item) (rest : Bytes)
    → AllFulfil rs is
    → IsU32 (length (put_bodies is))
    → read_heads (length is) (put_heads is ++ rest) ≡ heads is
unfolding read_heads put_heads put_bodies
read_heads-put_heads rs [] rest h l = refl
read_heads-put_heads [] (i ∷ is) rest h l = absurd h
read_heads-put_heads (r ∷ rs) (i ∷ is) rest ((f, g), h) l =
    let total = length-append i.sent (put_bodies is) in
    rw (
      append_assoc,
      append_assoc,
      u32-put_le i.code _ f,
      drop_word i.code,
      u32-put_le (length i.sent) _ (omega (arith, total)),
      drop_head,
      read_heads-put_heads rs is rest h (omega (arith, total)),
    )

-- One round of the loop on an item whose data is there and that has the requested length.
read_items_step :
    (error declared : ℕ) (hs : List (ℕ × ℕ)) (r : ReadRequest) (rs : List ReadRequest)
    (section : Bytes)
    → declared ≤ length section
    → IsU32 (length section)
    → (error ≢ Code.no_errors) ⊎ (declared ≡ r.read_length)
    → read_items ((error, declared) ∷ hs) (r ∷ rs) section
      ≡ record {
        error = error;
        body = if error == Code.no_errors then take declared section else [];
      }
        ∷ read_items hs rs (drop declared section)
unfolding read_items
read_items_step error declared hs r rs section h l g = ground arith

read_items-put_bodies :
    (rs : List ReadRequest) (is : List Item) (extra : Bytes)
    → AllFulfil rs is
    → IsU32 (length (put_bodies is ++ extra))
    → read_items (heads is) rs (put_bodies is ++ extra) ≡ seen_all is
unfolding put_bodies seen_all
read_items-put_bodies [] [] extra h l = unfold read_items in refl
read_items-put_bodies (r ∷ rs) [] extra h l = absurd h
read_items-put_bodies [] (i ∷ is) extra h l = absurd h
read_items-put_bodies (r ∷ rs) (i ∷ is) extra ((f, g), h) l =
    let tail : Bytes = put_bodies is ++ extra in
    let assoc = append_assoc i.sent (put_bodies is) extra in
    let total = length-append i.sent tail in
    let whole : IsU32 (length (i.sent ++ tail)) = rw assoc at l in
    rw (
      assoc,
      read_items_step i.code (length i.sent) (heads is) r rs (i.sent ++ tail) (omega (arith, total))
          whole g,
      take-append_length i.sent tail,
      drop-append_length i.sent tail,
      read_items-put_bodies rs is extra h (omega (arith, total, whole)),
    )

-- A response within 32 bits that answers every request, each with its data or with a code, is
-- read item by item: the codes and data of the items in order, whatever data the failed items
-- brought along and whatever follows the last.
pub parse_sum_read_response-put :
    (rs : List ReadRequest) (is : List Item) (extra : Bytes)
    → AllFulfil rs is
    → IsU32 (length (put_bodies is ++ extra))
    → parse_sum_read_response (put_heads is ++ (put_bodies is ++ extra)) rs ≡ ok (seen_all is)
unfolding parse_sum_read_response
parse_sum_read_response-put rs is extra h l =
    let n : length rs ≡ length is = sym (length-put_bodies_lem rs is h) in
    let tail : Bytes = put_bodies is ++ extra in
    let size : length (put_heads is) ≡ length is * 8 = length-put_heads is in
    let enough : ltb (length (put_heads is ++ tail)) (length is * 8) ≡ false =
      le→ltb-false _ _ (omega (arith, size, length-append (put_heads is) tail)) in
    rw (
      n,
      enough,
      read_heads-put_heads rs is tail h (omega (arith, length-append (put_bodies is) extra)),
      ← size,
      drop-append_length (put_heads is) tail,
      read_items-put_bodies rs is extra h l,
    )
