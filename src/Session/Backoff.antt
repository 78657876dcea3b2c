-- ===== src/Session/Backoff.antt =====
-- The waits between attempts: `BackoffConfig.Validate` of session_options.go, `reconnectBackoff`,
-- `redialBackoff`, `nextFlapCount` and `routeActivationBudget` of session.go.
use go_ads.Common.{
  ℕ, ◌+◌, ◌*◌, ◌/◌, ◌^◌, ◌≤◌, ◌≡◌, Bool, true, false, ◌||◌, not, Option, none, some, ltb, ◌==◌,
  if◌then◌else◌, arith,
}
use go_ads.Common.Decimal.{ℤ, pos, negsuc}
use go_ads.Common.Int64.{add64, lez, lez_refl, lez_trans}

pub record BackoffConfig : Type 0 where
  pub initial_interval : ℤ
  pub initial_attempts : ℤ
  pub mid_interval : ℤ
  pub mid_attempts : ℤ
  pub slow_interval : ℤ
  pub slow_attempts : ℤ
  pub max_interval : ℤ

-- `a < b`
abbrev ltz : ℤ → ℤ → Bool
ltz a b = not (lez b a)

-- Validate, true for no error.
unfoldable pub validate : BackoffConfig → Bool
validate c =
    if lez c.initial_interval (pos 0)
    then false
    else if lez c.mid_interval (pos 0)
    then false
    else if lez c.slow_interval (pos 0)
    then false
    else if lez c.max_interval (pos 0)
    then false
    else if ltz c.initial_attempts (pos 0)
    then false
    else if ltz c.mid_attempts (pos 0)
    then false
    else if ltz c.slow_attempts (pos 0)
    then false
    else if ltz c.mid_interval c.initial_interval
    then false
    else if ltz c.slow_interval c.mid_interval
    then false
    else if ltz c.max_interval c.slow_interval
    then false
    else true

-- WithBackoff
unfoldable pub with_backoff : BackoffConfig → BackoffConfig → BackoffConfig
with_backoff c current = if validate c then c else current

unfoldable pub reconnect_backoff : BackoffConfig → ℤ → ℤ
reconnect_backoff c attempt =
    if lez attempt c.initial_attempts
    then c.initial_interval
    else if lez attempt (add64 c.initial_attempts c.mid_attempts)
    then c.mid_interval
    else if lez attempt (add64 (add64 c.initial_attempts c.mid_attempts) c.slow_attempts)
    then c.slow_interval
    else c.max_interval

-- Of a valid configuration the intervals are positive and do not decrease.
abbrev pub Ramp : BackoffConfig → Type 0
Ramp c =
    (lez c.initial_interval (pos 0) ≡ false)
    × (lez c.initial_interval c.mid_interval ≡ true)
    × (lez c.mid_interval c.slow_interval ≡ true)
    × (lez c.slow_interval c.max_interval ≡ true)

validate-Ramp : (c : BackoffConfig) → validate c ≡ true → Ramp c
unfolding validate
validate-Ramp c h = ground arith

-- Of a valid configuration, a later attempt waits no shorter time than an earlier one, and every
-- attempt waits.
pub reconnect_backoff_ramp :
    (c : BackoffConfig) (early late : ℤ)
    → validate c ≡ true
    → lez early late ≡ true
    → (lez (reconnect_backoff c early) (reconnect_backoff c late) ≡ true)
      × (lez (reconnect_backoff c early) (pos 0) ≡ false)
unfolding reconnect_backoff
reconnect_backoff_ramp c early late h k =
    let (p, im, ms, sx) = validate-Ramp c h in
    let is = lez_trans c.initial_interval c.mid_interval c.slow_interval im ms in
    let ix = lez_trans c.initial_interval c.slow_interval c.max_interval is sx in
    let mx = lez_trans c.mid_interval c.slow_interval c.max_interval ms sx in
    ground (
      arith,
      im,
      ms,
      sx,
      is,
      ix,
      mx,
      lez_refl c.initial_interval,
      lez_refl c.mid_interval,
      lez_refl c.slow_interval,
      lez_refl c.max_interval,
      lez_trans c.initial_interval c.mid_interval (pos 0) im,
      lez_trans c.initial_interval c.slow_interval (pos 0) is,
      lez_trans c.initial_interval c.max_interval (pos 0) ix,
      lez_trans early late c.initial_attempts k,
      lez_trans early late (add64 c.initial_attempts c.mid_attempts) k,
      lez_trans early late (add64 (add64 c.initial_attempts c.mid_attempts) c.slow_attempts) k,
    )

abbrev redial_backoff_base : ℕ
redial_backoff_base = 250000000

abbrev redial_backoff_max : ℕ
redial_backoff_max = 2000000000

abbrev max_failure_backoff_shift : ℕ
max_failure_backoff_shift = 6

-- A negative `n` counts as 0; no shift up to the limit overflows.
unfoldable pub redial_backoff : ℤ → ℕ
redial_backoff n =
    let shift : ℕ = elim n [
      | negsuc _ ↦ 0
      | pos m ↦ if ltb max_failure_backoff_shift m then max_failure_backoff_shift else m
    ] in
    let d = redial_backoff_base * 2 ^ shift in
    if ltb redial_backoff_max d || d == 0 then redial_backoff_max else d

abbrev flap_window : ℕ
flap_window = 5000000000

abbrev flap_reset_window : ℕ
flap_reset_window = 60000000000

-- The time since the last Connected, none if there was none.
unfoldable pub next_flap_count : ℕ → Option ℤ → Bool → ℕ
next_flap_count prev none served_nothing = if served_nothing then prev + 1 else prev
next_flap_count prev (some elapsed) served_nothing =
    if not (lez (pos flap_window) elapsed)
    then prev + 2
    else if not (lez (pos flap_reset_window) elapsed)
    then prev + 1
    else 0

abbrev default_route_activation_timeout : ℕ
default_route_activation_timeout = 10000000000

abbrev min_route_activation_probe : ℕ
min_route_activation_probe = 500000000

abbrev max_route_activation_probe : ℕ
max_route_activation_probe = 2000000000

-- The total and the wait for one probe; a configured time that is not positive is the default.
unfoldable pub route_activation_budget : ℤ → ℕ × ℕ
route_activation_budget configured =
    let total : ℕ = elim configured [
      | negsuc _ ↦ default_route_activation_timeout
      | pos n ↦ if n == 0 then default_route_activation_timeout else n
    ] in
    let quarter = total / 4 in
    let raised =
      if ltb quarter min_route_activation_probe then min_route_activation_probe else quarter in
    (total, if ltb max_route_activation_probe raised then max_route_activation_probe else raised)

-- Four probes fit the total wherever that is two seconds or more.
pub route_activation_budget_bounds :
    (configured : ℤ)
    → (min_route_activation_probe ≤ (route_activation_budget configured).1)
      × ((route_activation_budget configured).1 ≤ max_route_activation_probe)
unfolding route_activation_budget
route_activation_budget_bounds configured = ground arith
