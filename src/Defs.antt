-- ===== src/Defs.antt =====
-- defs.go: the functions on the protocol's numbers, and `durationToADSTicks` of
-- cmd_notification.go. A duration is a number of nanoseconds; a type name is its bytes.
pub mod Code
pub mod Command
pub mod Group
pub mod Mode
pub mod Laws
use go_ads.Common.{
  ℕ, ◌+◌, ◌-◌, ◌*◌, ◌/◌, ◌%◌, ◌^◌, Bool, true, false, ◌||◌, ltb, ◌==◌, if◌then◌else◌, Fault, device,
  router, transport, Result, ok, err, malformed, Option, none, some,
}
use go_ads.Common.Decimal.{ℤ, pos, negsuc}

pub is_unsupported_code : ℕ → Bool
is_unsupported_code rc =
    rc == Code.device_service_not_supported
    || rc == Code.unknown_command_id
    || rc == Code.unknown_ads_command

-- `isSumCommandUnsupportedError`: `errors.As` finds a device's code only.
unfoldable pub is_sum_command_unsupported_error : Fault → Bool
unfolding is_unsupported_code
is_sum_command_unsupported_error (device rc) = is_unsupported_code rc
is_sum_command_unsupported_error _ = false

-- `errors.As(err, &rc)`
abbrev pub return_code? : Fault → Option ℕ
return_code? (device rc) = some rc
return_code? _ = none

pub downgrade_trans_mode : ℕ → ℕ
downgrade_trans_mode mode =
    if mode == Mode.server_on_change2
    then Mode.server_on_change
    else if mode == Mode.server_cycle2
    then Mode.server_cycle
    else mode

-- The mode to send and the cycle-time field: a task context number for the InContext modes.
pub notification_cycle_field : ℕ → ℕ → ℤ → ℕ × ℤ
unfolding downgrade_trans_mode
notification_cycle_field mode context_mask cycle_time =
    if mode == Mode.server_cycle2 || mode == Mode.server_on_change2
    then (if context_mask == 0
        then (downgrade_trans_mode mode, cycle_time)
        else (mode, pos (context_mask * 100)))
    else (mode, cycle_time)

-- `uint8((f >> 8) & 0x0F)`
pub context_mask : ℕ → ℕ
context_mask flags = flags / 2 ^ 8 % 16

-- 100 ns ticks; a negative duration, and one beyond 32 bits of ticks, is an error.
unfoldable pub duration_to_ads_ticks : ℤ → Result ℕ
duration_to_ads_ticks (negsuc n) = err malformed
duration_to_ads_ticks (pos n) = if ltb (2 ^ 32 - 1) (n / 100) then err malformed else ok (n / 100)

-- `isBestEffortDeleteSuccess`
unfoldable pub is_best_effort_delete_success : ℕ → Bool
is_best_effort_delete_success code =
    code == Code.no_errors || code == Code.notify_handle_invalid || code == Code.client_unknown

-- The second half of `detectStaleCache`'s result.
pub data Reason : Type 0 where
  version_invalid not_found invalid_offset not_active handle_invalid invalid_size : Reason

unfoldable pub detect_stale_cache : ℕ → Option Reason
detect_stale_cache rc =
    if rc == Code.symbol_version_invalid
    then some version_invalid
    else if rc == Code.symbol_no_found
    then some not_found
    else if rc == Code.device_invalid_offset
    then some invalid_offset
    else if rc == Code.symbol_not_active
    then some not_active
    else if rc == Code.notify_handle_invalid
    then some handle_invalid
    else if rc == Code.device_invalid_size
    then some invalid_size
    else none
