-- ===== src/Client/Sum/Read.antt =====
-- `SumRead` of cmd_sum.go: the batched read, the probe for the command that the PLC has, and the
-- individual reads that stand in for it.
pub mod Honest
pub mod Probe
use go_ads.Common.{
  ℕ, ◌+◌, ◌*◌, ◌-◌, ◌%◌, ◌^◌, Bool, true, false, List, [], ◌∷◌, Bytes, length, ltb, ◌==◌,
  if◌then◌else◌, Result, ok, err, Fault, device, malformed, Option, none, some,
}
use go_ads.Defs.{is_sum_command_unsupported_error, return_code?}
use go_ads.Defs.Code
use go_ads.Defs.Group
use go_ads.Client.Conn.{Capabilities, Conn, M, ◌>>=◌, ◌>>◌, pure, lift, outcome, get_caps, set_caps}
use go_ads.Client.Rpc.{read, write_read}
use go_ads.Client.Sum.Layout.{
  ReadRequest, ReadResult, read_section, total_read_length, parse_sum_read_response,
}

-- The code that an individual request's fault stands for in a result.
abbrev pub fault_code : Fault → ℕ
fault_code e = elim (return_code? e) [ some rc ↦ rc | none ↦ Code.device_error ]

abbrev pub read_result : Result Bytes → ReadResult
read_result (ok body) = record { error = Code.no_errors; body = body }
read_result (err e) = record { error = fault_code e; body = [] }

-- `c.capabilities.SumReadCmdStore(v)`
abbrev pub store_cmd : {S : Type 0} → ℕ → Conn S → Conn S
store_cmd v c = let caps = c.caps in record c { caps = record caps { sum_read_cmd = v } }

-- `total > math.MaxUint32` on the uint64 `uint64(n)*8 + totalReadLen`.
unfoldable pub response_total : List ReadRequest → ℕ
response_total requests = (length requests * 8 + total_read_length requests) % 2 ^ 64

module _ {S : Type 0} (ask : ℕ → Bytes → S → Result Bytes × S) where
  unfoldable pub sum_read_fallback : List ReadRequest → M S (List ReadResult)
  sum_read_fallback [] = pure []
  sum_read_fallback (r ∷ rs) = do
    answer ← outcome (read ask r.group r.offset r.read_length)
    rest ← sum_read_fallback rs
    pure (read_result answer ∷ rest)

  -- One attempt with a group.
  unfoldable pub sum_attempt : ℕ → List ReadRequest → M S Bytes
  sum_attempt group requests =
      write_read ask group (length requests) (response_total requests) (read_section requests)

  unfoldable pub sum_read_exec : ℕ → List ReadRequest → M S (List ReadResult)
  unfolding sum_attempt
  sum_read_exec group requests = do
    resp ← sum_attempt group requests
    lift (parse_sum_read_response resp requests)

  -- The second attempt, and what stands in when the PLC has neither command.
  unfoldable pub probe_ex : List ReadRequest → M S (List ReadResult)
  unfolding sum_attempt sum_read_fallback
  probe_ex requests c =
      let (answer, c') = sum_attempt Group.sumup_read_ex requests c in
      elim answer [
        | ok resp ↦ (parse_sum_read_response resp requests, store_cmd Group.sumup_read_ex c')
        | err e ↦
            if is_sum_command_unsupported_error e
            then sum_read_fallback requests (store_cmd 1 c')
            else (err e, c')
      ]

  unfoldable pub sum_read_probe : List ReadRequest → M S (List ReadResult)
  unfolding sum_attempt probe_ex
  sum_read_probe requests c =
      let (answer, c') = sum_attempt Group.sumup_read_ex2 requests c in
      elim answer [
        | ok resp ↦ (parse_sum_read_response resp requests, store_cmd Group.sumup_read_ex2 c')
        | err e ↦ if is_sum_command_unsupported_error e then probe_ex requests c' else (err e, c')
      ]

  unfoldable pub sum_read : List ReadRequest → M S (List ReadResult)
  unfolding sum_read_fallback sum_read_exec sum_read_probe
  sum_read [] c = (ok [], c)
  sum_read (r ∷ rs) c =
      let requests : List ReadRequest = r ∷ rs in
      let cmd = c.caps.sum_read_cmd in
      if cmd == 1
      then sum_read_fallback requests c
      else if ltb (2 ^ 32 - 1) (response_total requests)
      then (err malformed, c)
      else if cmd == 0
      then sum_read_probe requests c
      else sum_read_exec cmd requests c
