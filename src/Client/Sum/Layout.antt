-- ===== src/Client/Sum/Layout.antt =====
-- The bytes of the batched commands of cmd_sum.go: the request sections, and what the code makes
-- of a response. `binary.LittleEndian.Uint32(buf[i:])` on a buffer that was measured before is
-- `u32`, whose value on a shorter buffer is never used.
pub mod ReadLaws
pub mod ReadReply
use go_ads.Common.{
  ℕ, zero, suc, ◌+◌, ◌*◌, ◌%◌, ◌^◌, Bool, true, false, not, List, [], ◌∷◌, ◌++◌, Bytes, length,
  take, drop, ltb, ◌==◌, if◌then◌else◌, Result, ok, err, malformed,
}
use go_ads.Common.Words.{put_le, get_le}
use go_ads.Defs.Code

pub record ReadRequest : Type 0 where
  pub group : ℕ
  pub offset : ℕ
  pub read_length : ℕ  -- Length

-- `SumReadResult`; a nil slice is empty.
pub record ReadResult : Type 0 where
  pub error : ℕ
  pub body : Bytes  -- Data

unfoldable pub u32 : Bytes → ℕ
u32 bs = elim (get_le 4 bs) [ ok (v, rest) ↦ v | err e ↦ 0 ]

-- The write data of SumRead: twelve bytes for each request.
unfoldable pub read_section : List ReadRequest → Bytes
read_section [] = []
read_section (r ∷ rs) =
    (put_le 4 r.group ++ (put_le 4 r.offset ++ put_le 4 r.read_length)) ++ read_section rs

-- `totalReadLen`, a uint64.
unfoldable pub total_read_length : List ReadRequest → ℕ
total_read_length [] = 0
total_read_length (r ∷ rs) = (r.read_length + total_read_length rs) % 2 ^ 64

-- The code and the length of each item, eight bytes apiece.
unfoldable pub read_heads : ℕ → Bytes → List (ℕ × ℕ)
unfolding u32
read_heads zero resp = []
read_heads (suc n) resp = (u32 resp, u32 (drop 4 resp)) ∷ read_heads n (drop 8 resp)

-- The error that the rest of a batch gets once the data section cannot be trusted. The codes read
-- before are overwritten and no data is kept.
unfoldable pub invalid_rest : List (ℕ × ℕ) → List ReadResult
invalid_rest [] = []
invalid_rest (h ∷ hs) = record { error = Code.device_invalid_size; body = [] } ∷ invalid_rest hs

-- The second loop of `parseSumReadResponse`: `section` is the response from `dataOffset` on.
unfoldable pub read_items : List (ℕ × ℕ) → List ReadRequest → Bytes → List ReadResult
unfolding invalid_rest
read_items [] rs section = []
read_items (h ∷ hs) [] section = []
read_items ((error, declared) ∷ hs) (r ∷ rs) section =
    let remaining = length section % 2 ^ 32 in
    let rest = read_items hs rs (drop declared section) in
    if not (error == Code.no_errors)
    then (if ltb remaining declared
        then invalid_rest ((error, declared) ∷ hs)
        else record { error = error; body = [] } ∷ rest)
    else if ltb declared r.read_length
    then invalid_rest ((error, declared) ∷ hs)
    else if ltb r.read_length declared
    then invalid_rest ((error, declared) ∷ hs)
    else if ltb remaining declared
    then invalid_rest ((error, declared) ∷ hs)
    else record { error = Code.no_errors; body = take declared section } ∷ rest

unfoldable pub parse_sum_read_response : Bytes → List ReadRequest → Result (List ReadResult)
unfolding read_heads read_items
parse_sum_read_response resp requests =
    let n = length requests in
    if ltb (length resp) (n * 8)
    then err malformed
    else ok (read_items (read_heads n resp) requests (drop (n * 8) resp))

pub record WriteRequest : Type 0 where
  pub group : ℕ
  pub offset : ℕ
  pub body : Bytes  -- Data

-- The write data of SumWrite: a head of twelve bytes for each request, then their data.
unfoldable pub write_heads : List WriteRequest → Bytes
write_heads [] = []
write_heads (r ∷ rs) =
    (put_le 4 r.group ++ (put_le 4 r.offset ++ put_le 4 (length r.body % 2 ^ 32))) ++ write_heads rs

unfoldable pub write_bodies : List WriteRequest → Bytes
write_bodies [] = []
write_bodies (r ∷ rs) = r.body ++ write_bodies rs

unfoldable pub write_section : List WriteRequest → Bytes
unfolding write_heads write_bodies
write_section rs = write_heads rs ++ write_bodies rs

-- One code of four bytes for each item.
unfoldable pub codes : ℕ → Bytes → List ℕ
unfolding u32
codes zero resp = []
codes (suc n) resp = u32 resp ∷ codes n (drop 4 resp)
