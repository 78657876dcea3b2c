-- ===== src/Client/Sum/Write.antt =====
-- `SumWrite` of cmd_sum.go: the batched write, and the individual writes that stand in for it.
pub mod Laws
use go_ads.Common.{
  ℕ, ◌+◌, ◌*◌, ◌%◌, ◌^◌, Bool, true, false, List, [], ◌∷◌, Bytes, length, ltb, ◌==◌, if◌then◌else◌,
  Result, ok, err, Fault, device, malformed, Option, none, some,
}
use go_ads.Defs.{is_sum_command_unsupported_error}
use go_ads.Defs.Code
use go_ads.Defs.Group
use go_ads.Client.Conn.{Capabilities, Conn, M, ◌>>=◌, pure, outcome, cas}
use go_ads.Client.Rpc.{write, write_read}
use go_ads.Client.Sum.Layout.{WriteRequest, write_section, codes}
use go_ads.Client.Sum.Read.{fault_code}

-- The code of an individual write; a result is its code alone.
abbrev pub write_result : Result (Unit {0}) → ℕ
write_result (ok _) = Code.no_errors
write_result (err e) = fault_code e

-- `c.capabilities.SumWriteStateCAS(0, v)`
abbrev pub cas_write_state : {S : Type 0} → ℕ → Conn S → Conn S
cas_write_state v c =
    let caps = c.caps in
    record c { caps = record caps { sum_write_state = cas 0 v caps.sum_write_state } }

module _ {S : Type 0} (ask : ℕ → Bytes → S → Result Bytes × S) where
  unfoldable pub sum_write_fallback : List WriteRequest → M S (List ℕ)
  sum_write_fallback [] = pure []
  sum_write_fallback (r ∷ rs) = do
    answer ← outcome (write ask r.group r.offset r.body)
    rest ← sum_write_fallback rs
    pure (write_result answer ∷ rest)

  -- The batch as one request.
  unfoldable pub write_attempt : List WriteRequest → M S Bytes
  write_attempt requests =
      write_read ask Group.sumup_write (length requests) (length requests * 4 % 2 ^ 32)
        (write_section requests)

  unfoldable pub sum_write : List WriteRequest → M S (List ℕ)
  unfolding sum_write_fallback write_attempt
  sum_write [] c = (ok [], c)
  sum_write (r ∷ rs) c =
      let requests : List WriteRequest = r ∷ rs in
      let n = length requests in
      let (answer, c') = write_attempt requests c in
      if c.caps.sum_write_state == 2 then sum_write_fallback requests c else elim answer [
        | err e ↦
            if is_sum_command_unsupported_error e
            then sum_write_fallback requests (cas_write_state 2 c')
            else (err e, c')
        | ok resp ↦ (
          if ltb (length resp) (n * 4) then err malformed else ok (codes n resp),
          cas_write_state 1 c',
        )
      ]
