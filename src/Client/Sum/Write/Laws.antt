-- ===== src/Client/Sum/Write/Laws.antt =====
-- What a device reads from the write data of `SumWrite` of cmd_sum.go, and what the batch does to
-- the world.
use go_ads.Common.{
  ℕ, zero, suc, ◌%◌, ◌^◌, ◌≡◌, ◌≢◌, refl, ap, false, List, [], ◌∷◌, ◌++◌, append_assoc, Bytes,
  length, All, arith, Result, ok, err, ◌>>=◌, IsU32, Fault,
}
use go_ads.Common.Words.{get_le, get_bytes, get_le-put_le, get_bytes-append}
use go_ads.Defs.{is_sum_command_unsupported_error}
use go_ads.Client.Conn.{Conn}
use go_ads.Client.Rpc.{write}
use go_ads.Client.Rpc.Laws.{write-caps}
use go_ads.Client.Sum.Layout.{WriteRequest, write_heads, write_bodies, write_section}
use go_ads.Client.Sum.Write.{write_result, sum_write_fallback, write_attempt, sum_write}

-- The heads of `n` items, as a device reads them, and what follows.
unfoldable pub get_heads : ℕ → Bytes → Result (List (ℕ × ℕ × ℕ) × Bytes)
get_heads zero bs = ok ([], bs)
get_heads (suc n) bs = do
  (group, r1) ← get_le 4 bs
  (offset, r2) ← get_le 4 r1
  (size, r3) ← get_le 4 r2
  (hs, rest) ← get_heads n r3
  ok ((group, offset, size) ∷ hs, rest)

-- The data of each item.
unfoldable pub get_bodies : List (ℕ × ℕ × ℕ) → Bytes → Result (List WriteRequest)
get_bodies [] bs = ok []
get_bodies ((group, offset, size) ∷ hs) bs = do
  (body, rest) ← get_bytes size bs
  rs ← get_bodies hs rest
  ok (record { group = group; offset = offset; body = body } ∷ rs)

unfoldable pub get_section : ℕ → Bytes → Result (List WriteRequest)
unfolding get_heads get_bodies
get_section n bs = do (hs, rest) ← get_heads n bs; get_bodies hs rest

-- The fields are `uint32`s, and so is the length of the data.
pub record IsRequest (r : WriteRequest) : Type 0 where
  pub group_fits : IsU32 r.group
  pub offset_fits : IsU32 r.offset
  pub body_fits : IsU32 (length r.body)

abbrev sizes : List WriteRequest → List (ℕ × ℕ × ℕ)
sizes [] = []
sizes (r ∷ rs) = (r.group, r.offset, length r.body) ∷ sizes rs

get_heads-write_heads :
    (rs : List WriteRequest) (rest : Bytes)
    → All IsRequest rs
    → get_heads (length rs) (write_heads rs ++ rest) ≡ ok (sizes rs, rest)
unfolding get_heads write_heads
get_heads-write_heads [] rest h = refl
get_heads-write_heads (r ∷ rs) rest (h, hs) =
    let small : length r.body % 2 ^ 32 ≡ length r.body = omega (arith, h.body_fits) in
    simp append_assoc (
      rw (
        small,
        get_le-put_le 4 r.group _ h.group_fits,
        get_le-put_le 4 r.offset _ h.offset_fits,
        get_le-put_le 4 (length r.body) _ h.body_fits,
        get_heads-write_heads rs rest hs,
      ))

get_bodies-write_bodies : (rs : List WriteRequest) → get_bodies (sizes rs) (write_bodies rs) ≡ ok rs
unfolding get_bodies write_bodies
get_bodies-write_bodies [] = refl
get_bodies-write_bodies (r ∷ rs) =
    rw (get_bytes-append r.body (write_bodies rs), get_bodies-write_bodies rs)

-- A device that reads the heads and then the data of each item gets back the very requests: no
-- item's data is taken for another's.
pub get_section-write_section :
    (rs : List WriteRequest) → All IsRequest rs → get_section (length rs) (write_section rs) ≡ ok rs
unfolding get_section write_section
get_section-write_section rs h =
    rw (get_heads-write_heads rs (write_bodies rs) h, get_bodies-write_bodies rs)

module _ {S : Type 0} (ask : ℕ → Bytes → S → Result Bytes × S) where
  -- Individual writes always give one code for each request, and touch no capability.
  pub sum_write_fallback_total :
      (rs : List WriteRequest) (c : Conn S)
      → (results : List ℕ) × ((sum_write_fallback ask rs c).0 ≡ ok results)
        × (length results ≡ length rs)
        × ((sum_write_fallback ask rs c).1.caps ≡ c.caps)
  unfolding sum_write_fallback
  sum_write_fallback_total [] c = ([], refl, refl, refl)
  sum_write_fallback_total (r ∷ rs) c =
      let (answer, c') = write ask r.group r.offset r.body c in
      let (results, e, l, k) = sum_write_fallback_total rs c' in
      (
        write_result answer ∷ results,
        ground (arith, e),
        ap suc l,
        ground (arith, e, k, write-caps ask c r.group r.offset r.body),
      )

  -- Nothing is written twice: the individual writes follow the batch only when the PLC has said
  -- that it does not know the command. Any other failure is returned with the world as the one
  -- request left it.
  pub sum_write_once :
      (r : WriteRequest) (rs : List WriteRequest) (c : Conn S) {e : Fault}
      → c.caps.sum_write_state ≢ 2
      → (write_attempt ask (r ∷ rs) c).0 ≡ err e
      → is_sum_command_unsupported_error e ≡ false
      → sum_write ask (r ∷ rs) c ≡ (err e, (write_attempt ask (r ∷ rs) c).1)
  unfolding sum_write
  sum_write_once r rs c h a u = ground arith
