-- ===== src/Client/Sum/Notify.antt =====
-- `executeSumCommand`, `SumAddDeviceNotification` and `SumDeleteDeviceNotification` of
-- cmd_sum.go, with their fallbacks. A handler of items, `on_item`, acts on the world; no handler
-- is the one that does nothing. Go's pair of a slice and an error is a record, with the flag
-- `fellBack` that the fallback's closure sets.
pub mod Laws
pub mod Shape
use go_ads.Common.{
  ℕ, zero, suc, ◌+◌, ◌*◌, ◌-◌, ◌%◌, ◌^◌, Bool, true, false, ◌||◌, List, [], ◌∷◌, ◌++◌, Bytes,
  length, drop, ltb, ◌==◌, if◌then◌else◌, Result, ok, err, Fault, malformed, ◌>>=◌, Option, none,
  some,
}
use go_ads.Common.Words.{put_le}
use go_ads.Common.Decimal.{ℤ}
use go_ads.Defs.{
  is_sum_command_unsupported_error, return_code?, downgrade_trans_mode, duration_to_ads_ticks,
}
use go_ads.Defs.Code
use go_ads.Defs.Group
use go_ads.Client.Wire.{add_notification_request}
use go_ads.Client.Conn.{Capabilities, Conn, cas}
use go_ads.Client.Rpc.{write_read, add_device_notification, delete_device_notification}
use go_ads.Client.Sum.Layout.{u32, codes}

pub record Batch (A : Type 0) : Type 0 where
  pub results : List A
  pub fault : Option Fault
  pub fell_back : Bool

-- `return nil, err`
abbrev pub failed : {A : Type 0} → Fault → Batch A
failed e = record { results = []; fault = some e; fell_back = false }

abbrev pub Step : Type 0 → Type 0 → Type 0
Step S A = Conn S → Batch A × Conn S

-- `sumCmdSpec`; `cas_state` is the compare-and-swap of the state from 0.
pub record SumCmdSpec (S Req Res : Type 0) : Type 0 where
  pub state_load : Capabilities → ℕ
  pub cas_state : ℕ → Capabilities → Capabilities
  pub group : ℕ
  pub item_write_size : ℕ
  pub item_read_size : ℕ
  pub encode : Req → Result Bytes
  pub decode : Bytes → ℕ → List Res
  pub fallback : List Req → Step S Res

unfoldable pub encode_all : {Req : Type 0} → (Req → Result Bytes) → List Req → Result Bytes
encode_all f [] = ok []
encode_all f (r ∷ rs) = do item ← f r; rest ← encode_all f rs; ok (item ++ rest)

abbrev pub too_large : ℕ → ℕ → Bool
too_large n size = ltb (2 ^ 32 - 1) (n * size)

-- Either the library sent the entry, and the PLC's code and handle count, or it is skipped, with
-- the failure it met or the item the batch was aborted at.
pub data Skip : Type 0 where
  failed_with : Fault → Skip
  aborted_at : ℕ → Skip

pub record NotificationRequest : Type 0 where
  pub group : ℕ
  pub offset : ℕ
  pub length : ℕ
  pub mode : ℕ
  pub max_delay : ℤ
  pub cycle_time : ℤ

pub record NotificationResult : Type 0 where
  pub handle : ℕ
  pub error : ℕ
  pub skipped : Option Skip

unfoldable pub encode_notification : NotificationRequest → Result Bytes
encode_notification r = do
  max_delay ← duration_to_ads_ticks r.max_delay
  cycle_time ← duration_to_ads_ticks r.cycle_time
  ok (add_notification_request r.group r.offset r.length r.mode max_delay cycle_time)

unfoldable pub decode_notifications : Bytes → ℕ → List NotificationResult
unfolding u32
decode_notifications resp zero = []
decode_notifications resp (suc n) =
    record { handle = u32 (drop 4 resp); error = u32 resp; skipped = none }
    ∷ decode_notifications (drop 8 resp) n

-- What the fallback makes of one Add: an entry, or nothing when the PLC has given no verdict.
abbrev pub verdict : Result ℕ → Result NotificationResult
verdict (ok h) = ok (record { handle = h; error = Code.no_errors; skipped = none })
verdict (err e) = elim (return_code? e) [
  | none ↦ err e
  | some rc ↦ ok (record { handle = 0; error = rc; skipped = none })
]

abbrev pub skipped_for : Skip → NotificationResult
skipped_for s = record { handle = 0; error = Code.no_errors; skipped = some s }

abbrev pub abandoned : {A : Type 0} → ℕ → List A → List NotificationResult
abandoned i [] = []
abandoned i (r ∷ rs) = skipped_for (aborted_at i) ∷ abandoned i rs

abbrev pub cas_add_state : ℕ → Capabilities → Capabilities
cas_add_state v caps = record caps { sum_add_notif_state = cas 0 v caps.sum_add_notif_state }

abbrev pub cas_delete_state : ℕ → Capabilities → Capabilities
cas_delete_state v caps = record caps {
  sum_delete_notif_state = cas 0 v caps.sum_delete_notif_state;
}

-- One result per call of the handler, in order.
unfoldable pub report : {S A : Type 0} → (ℕ → A → S → S) → ℕ → List A → S → S
report on_item i [] w = w
report on_item i (r ∷ rs) w = report on_item (suc i) rs (on_item i r w)

module _ {S : Type 0} (ask : ℕ → Bytes → S → Result Bytes × S) where
  unfoldable pub execute_sum_command :
      {Req Res : Type 0} → SumCmdSpec S Req Res → List Req → Step S Res
  execute_sum_command spec [] c = (record { results = []; fault = none; fell_back = false }, c)
  execute_sum_command spec (q ∷ qs) c =
      let requests = q ∷ qs in
      let n = length requests in
      if spec.state_load c.caps == 2
      then spec.fallback requests c
      else if too_large n spec.item_read_size || too_large n spec.item_write_size
      then (failed malformed, c)
      else elim (encode_all spec.encode requests) [
        | err e ↦ (failed e, c)
        | ok section ↦
            let (answer, c') =
              write_read ask spec.group n (n * spec.item_read_size % 2 ^ 32) section c in
            let caps' = c'.caps in
            elim answer [
              | err e ↦
                  if is_sum_command_unsupported_error e
                  then spec.fallback requests (record c' { caps = spec.cas_state 2 caps' })
                  else (failed e, c')
              | ok resp ↦
                  let found = record c' { caps = spec.cas_state 1 caps' } in
                  if ltb (length resp) (n * spec.item_read_size)
                  then (failed malformed, found)
                  else (
                    record { results = spec.decode resp n; fault = none; fell_back = false },
                    found,
                  )
            ]
      ]

  module _ (on_item : ℕ → NotificationResult → S → S) where
    -- From the request at index `i` on.
    unfoldable pub sum_add_notification_fallback :
        ℕ → List NotificationRequest → Step S NotificationResult
    unfolding report
    sum_add_notification_fallback i [] c =
        (record { results = []; fault = none; fell_back = true }, c)
    sum_add_notification_fallback i (r ∷ rs) c =
        let (answer, c') =
          add_device_notification ask r.group r.offset r.length (downgrade_trans_mode r.mode)
            r.max_delay r.cycle_time c in
        let w = c'.world in
        elim (verdict answer) [
          | err e ↦
              let results = skipped_for (failed_with e) ∷ abandoned i rs in
              (
                record { results = results; fault = some e; fell_back = true },
                record c' { world = report on_item i results w },
              )
          | ok item ↦
              let (rest, c'') =
                sum_add_notification_fallback (suc i) rs (record c' { world = on_item i item w }) in
              let items = rest.results in (record rest { results = item ∷ items }, c'')
        ]

    abbrev pub add_spec : SumCmdSpec S NotificationRequest NotificationResult
    add_spec = record {
      state_load = λ caps. caps.sum_add_notif_state;
      cas_state = cas_add_state;
      group = Group.sumup_add_notification;
      item_write_size = 40;
      item_read_size = 8;
      encode = encode_notification;
      decode = decode_notifications;
      fallback = sum_add_notification_fallback 0;
    }

    -- The calls for a batch that was decoded; the fallback has made its own.
    unfoldable pub emit : Batch NotificationResult × Conn S → Batch NotificationResult × Conn S
    unfolding report
    emit (batch, c) =
        let w = c.world in
        elim batch.fault [
          | some e ↦ (batch, c)
          | none ↦
              if batch.fell_back
              then (batch, c)
              else (batch, record c { world = report on_item 0 batch.results w })
        ]

    unfoldable pub sum_add_device_notification :
        List NotificationRequest → Step S NotificationResult
    unfolding execute_sum_command emit
    sum_add_device_notification requests c = emit (execute_sum_command add_spec requests c)

  unfoldable pub sum_delete_notification_fallback : List ℕ → Step S ℕ
  sum_delete_notification_fallback [] c =
      (record { results = []; fault = none; fell_back = true }, c)
  sum_delete_notification_fallback (h ∷ hs) c =
      let (answer, c') = delete_device_notification ask h c in
      let (rest, c'') = sum_delete_notification_fallback hs c' in
      let codes' = rest.results in
      elim answer [
        | ok _ ↦ (record rest { results = Code.no_errors ∷ codes' }, c'')
        | err e ↦ elim (return_code? e) [
          | none ↦ (record { results = []; fault = some e; fell_back = true }, c')
          | some rc ↦ (record rest { results = rc ∷ codes' }, c'')
        ]
      ]

  abbrev pub delete_spec : SumCmdSpec S ℕ ℕ
  delete_spec = record {
    state_load = λ caps. caps.sum_delete_notif_state;
    cas_state = cas_delete_state;
    group = Group.sumup_delete_notification;
    item_write_size = 4;
    item_read_size = 4;
    encode = λ h. ok (put_le 4 h);
    decode = λ resp n. codes n resp;
    fallback = sum_delete_notification_fallback;
  }

  unfoldable pub sum_delete_device_notification : List ℕ → Step S ℕ
  unfolding execute_sum_command
  sum_delete_device_notification = execute_sum_command delete_spec
