-- ===== src/Client/Sum/Read/Probe.antt =====
-- What `SumRead` of cmd_sum.go learns of the PLC, and what it does with it.
use go_ads.Common.{ℕ, suc, ◌≡◌, ◌≢◌, ap, refl, List, [], ◌∷◌, Bytes, length, arith, Result, ok}
use go_ads.Defs.Group
use go_ads.Client.Conn.{Conn}
use go_ads.Client.Rpc.{read}
use go_ads.Client.Rpc.Laws.{read-caps, write_read-caps}
use go_ads.Client.Sum.Layout.{ReadRequest, ReadResult}
use go_ads.Client.Sum.Read.{
  read_result, sum_read_fallback, sum_attempt, sum_read_exec, probe_ex, sum_read_probe, sum_read,
  store_cmd,
}

module _ {S : Type 0} (ask : ℕ → Bytes → S → Result Bytes × S) where
  -- The individual reads always give a list of results, one for each request, and touch no
  -- capability.
  pub sum_read_fallback_total :
      (rs : List ReadRequest) (c : Conn S)
      → (results : List ReadResult) × ((sum_read_fallback ask rs c).0 ≡ ok results)
        × (length results ≡ length rs)
        × ((sum_read_fallback ask rs c).1.caps ≡ c.caps)
  unfolding sum_read_fallback
  sum_read_fallback_total [] c = ([], refl, refl, refl)
  sum_read_fallback_total (r ∷ rs) c =
      let (answer, c') = read ask r.group r.offset r.read_length c in
      let (results, e, l, k) = sum_read_fallback_total rs c' in
      (
        read_result answer ∷ results,
        ground (arith, e),
        ap suc l,
        ground (arith, e, k, read-caps ask c r.group r.offset r.read_length),
      )

  sum_attempt-caps :
      (g : ℕ) (rs : List ReadRequest) (c : Conn S) → (sum_attempt ask g rs c).1.caps ≡ c.caps
  unfolding sum_attempt
  sum_attempt-caps g rs c = write_read-caps ask c g _ _ _

  -- Once a command has been found, or found missing, no batch changes that.
  pub sum_read_keeps :
      (rs : List ReadRequest) (c : Conn S)
      → c.caps.sum_read_cmd ≢ 0
      → (sum_read ask rs c).1.caps ≡ c.caps
  unfolding sum_read sum_read_exec
  sum_read_keeps [] c h = refl
  sum_read_keeps (r ∷ rs) c h =
      let (results, e, l, k) = sum_read_fallback_total (r ∷ rs) c in
      ground (arith, k, sum_attempt-caps c.caps.sum_read_cmd (r ∷ rs) c)

  -- A batch that has a result has settled which command the PLC takes, or that it takes none.
  pub sum_read_settles :
      (r : ReadRequest) (rs : List ReadRequest) (c : Conn S) {results : List ReadResult}
      → (sum_read ask (r ∷ rs) c).0 ≡ ok results
      → (sum_read ask (r ∷ rs) c).1.caps.sum_read_cmd ≢ 0
  unfolding sum_read sum_read_probe probe_ex sum_read_exec
  sum_read_settles r rs c h =
      let requests : List ReadRequest = r ∷ rs in
      let c1 = (sum_attempt ask Group.sumup_read_ex2 requests c).1 in
      let c2 = (sum_attempt ask Group.sumup_read_ex requests c1).1 in
      let (results, e, l, k) = sum_read_fallback_total requests (store_cmd 1 c2) in
      let (results', e', l', k') = sum_read_fallback_total requests c in
      ground (arith, k, k', sum_attempt-caps c.caps.sum_read_cmd requests c)
