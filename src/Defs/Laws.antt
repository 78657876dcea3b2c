-- ===== src/Defs/Laws.antt =====
-- What the functions of defs.go compute.
use go_ads.Common.{ℕ, ◌*◌, ◌≤◌, ◌<◌, ◌+◌, ◌^◌, ◌≡◌, ◌≢◌, ◌⊎◌, ◌↔◌, arith, ok}
use go_ads.Common.Decimal.{ℤ, pos}
use go_ads.Defs.Mode
use go_ads.Defs.{notification_cycle_field, duration_to_ads_ticks}

-- A conversion to ticks succeeds for exactly the durations of 0 to 2 ^ 32 - 1 whole ticks, and
-- the ticks then are the duration rounded down.
pub duration_to_ads_ticks_lem :
    (n t : ℕ)
    → (duration_to_ads_ticks (pos n) ≡ ok t) ↔ ((100 * t ≤ n) × (n < 100 * t + 100) × (t < 2 ^ 32))
unfolding duration_to_ads_ticks
duration_to_ads_ticks_lem n t = ground arith

-- No task context number is sent as one unless the symbol has a context and the mode is one of
-- the two InContext modes; the field then converts to exactly that number of ticks.
pub cycle_field_ticks :
    (mode mask : ℕ) (cycle : ℤ)
    → mask < 256
    → let (mode', field) = notification_cycle_field mode mask cycle in
      ((mode' ≢ Mode.server_cycle2) × (mode' ≢ Mode.server_on_change2) × (field ≡ cycle))
      ⊎ ((mode' ≡ mode) × (mask ≢ 0) × (duration_to_ads_ticks field ≡ ok mask))
unfolding notification_cycle_field duration_to_ads_ticks
cycle_field_ticks mode mask cycle h = ground arith
