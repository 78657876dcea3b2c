-- ===== src/Session/Options/Laws.antt =====
-- What every list of options leaves of the fields that the loops of a session depend on.
use go_ads.Common.{
  ℕ, zero, suc, ◌+◌, ◌*◌, ◌-◌, ◌/◌, ◌%◌, ◌^◌, ◌≤◌, ◌<◌, ◌≡◌, refl, ◌⊎◌, inl, inr, true, List, [],
  ◌∷◌, ltb, leb, ◌==◌, arith, if-both, Bool-cases,
}
use native.Mathlib.Nat.{mod-add-div', mod-lt}
use go_ads.Common.Decimal.{ℤ, pos, negsuc}
use go_ads.Common.Int64.{lez}
use go_ads.Session.Backoff.{BackoffConfig, validate, with_backoff}
use go_ads.Session.Recovery.{heartbeat_cycle, normalize_heartbeat_options}
use go_ads.Session.Options.{
  Options, SessionOption, with_local_mode, with_skip_route_registration, without_ams_peer_fallback,
  with_force_route_registration, without_runtime_state_watch, without_notification_heartbeat,
  with_backoff_config, with_max_reconnect_attempts, with_request_timeout, with_target_check,
  with_route_activation_timeout, with_ams_peer_listen, with_strict_reconnect, with_auto_reconnect,
  with_symbol_version_strategy, with_max_symbol_version_reload_attempts,
  with_symbol_version_reload_window, with_notification_heartbeat, with_notification_silence_timeout,
  with_heartbeat_recovery, with_runtime_state_watch, max_ads_cycle_time, if_positive, clamped,
  recovery_mode, is_positive, apply_option, defaults, apply_options, resolve_heartbeat, configured,
}

-- The request timeout, the limit on reloads and its window are above zero, the backoff
-- configuration is valid, the strategy and the recovery mode are known ones, and the interval of
-- the heartbeat can be expressed in ADS.
abbrev pub Valid : Options → Type 0
Valid o =
    ((1 ≤ o.request_timeout) × (1 ≤ o.max_reload_attempts) × (1 ≤ o.reload_window))
    × (validate o.backoff_config ≡ true)
    × (o.version_strategy ≤ 2)
    × (o.heartbeat_recovery ≤ 3)
    × (o.heartbeat_interval ≤ max_ads_cycle_time)

if_positive-above : (d : ℤ) (old : ℕ) → 1 ≤ old → 1 ≤ if_positive d old
unfolding if_positive
if_positive-above (negsuc n) old h = h
if_positive-above (pos n) old h = ground arith

recovery_mode_bound : (m : ℤ) (old : ℕ) → old ≤ 3 → recovery_mode m old ≤ 3
unfolding recovery_mode
recovery_mode_bound (negsuc n) old h = h
recovery_mode_bound (pos n) old h = ground arith

clamped_bound : (n : ℕ) → clamped n ≤ max_ads_cycle_time
unfolding clamped
clamped_bound n = ground arith

with_backoff-validate :
    (c current : BackoffConfig) → validate current ≡ true → validate (with_backoff c current) ≡ true
unfolding with_backoff
with_backoff-validate c current h = elim (Bool-cases (validate c)) [
  | inl e ↦ rw (with_backoff, e) e
  | inr e ↦ rw (with_backoff, e) h
]

apply_option-Valid : (opt : SessionOption) (o : Options) → Valid o → Valid (apply_option opt o)
unfolding apply_option
apply_option-Valid with_local_mode o v = v
apply_option-Valid with_skip_route_registration o v = v
apply_option-Valid without_ams_peer_fallback o v = v
apply_option-Valid with_force_route_registration o v = v
apply_option-Valid without_runtime_state_watch o v = v
apply_option-Valid without_notification_heartbeat o v = v
apply_option-Valid (with_backoff_config c) o (n, b, s, m, i) =
    (n, with_backoff-validate c o.backoff_config b, s, m, i)
apply_option-Valid (with_max_reconnect_attempts n) o v = v
apply_option-Valid (with_request_timeout d) o ((t, n, w), b, s, m, i) =
    ((if_positive-above d o.request_timeout t, n, w), b, s, m, i)
apply_option-Valid (with_target_check (pos n)) o v = v
apply_option-Valid (with_target_check (negsuc n)) o v = v
apply_option-Valid (with_route_activation_timeout d) o v = v
apply_option-Valid (with_ams_peer_listen port) o v = v
apply_option-Valid (with_strict_reconnect n) o v = v
apply_option-Valid (with_auto_reconnect enabled) o v = v
apply_option-Valid (with_symbol_version_strategy s) o (n, b, h, m, i) = (n, b, ground arith, m, i)
apply_option-Valid (with_max_symbol_version_reload_attempts k) o ((t, n, w), b, s, m, i) =
    ((t, if_positive-above k o.max_reload_attempts n, w), b, s, m, i)
apply_option-Valid (with_symbol_version_reload_window d) o ((t, n, w), b, s, m, i) =
    ((t, n, if_positive-above d o.reload_window w), b, s, m, i)
apply_option-Valid (with_notification_heartbeat interval missed) o (n, b, s, m, i) = (
  n,
  b,
  s,
  m,
  if-both (λ k. k ≤ max_ads_cycle_time) (is_positive interval)
      (clamped_bound (if_positive interval o.heartbeat_interval)) i,
)
apply_option-Valid (with_notification_silence_timeout d) o v = v
apply_option-Valid (with_heartbeat_recovery mode) o (n, b, s, m, i) =
    (n, b, s, recovery_mode_bound mode o.heartbeat_recovery m, i)
apply_option-Valid (with_runtime_state_watch d) o v = v

apply_options-Valid :
    (opts : List SessionOption) (o : Options) → Valid o → Valid (apply_options opts o)
unfolding apply_options
apply_options-Valid [] o v = v
apply_options-Valid (opt ∷ opts) o v =
    apply_options-Valid opts (apply_option opt o) (apply_option-Valid opt o v)

defaults-Valid : Valid defaults
unfolding validate lez
defaults-Valid =
    ((omega arith, omega arith, omega arith), refl, omega arith, omega arith, omega arith)

-- Rounded up, so many cycles are no shorter than the silence.
rounded_up : (silence cycle : ℕ) → 1 ≤ cycle → silence ≤ (silence + cycle - 1) / cycle * cycle
rounded_up silence cycle h =
    let e = mod-add-div' (silence + cycle - 1) cycle in
    let k : (silence + cycle - 1) % cycle < cycle = mod-lt (silence + cycle - 1) h in omega arith

two_cover : (ticks cycle silence : ℕ) → ticks < 2 → silence ≤ ticks * cycle → silence ≤ 2 * cycle
two_cover zero cycle silence h k = omega arith
two_cover (suc zero) cycle silence h k = omega arith
two_cover (suc (suc ticks)) cycle silence h k = absurd (omega arith)

-- Without an overflow, so much silence is no longer than the beats that may be missed.
normalize_covers :
    (silence cycle missed : ℕ)
    → 1 ≤ cycle
    → (silence ≤ normalize_heartbeat_options silence cycle missed * cycle)
      ⊎ (2 ^ 63 < silence + cycle)
unfolding normalize_heartbeat_options
normalize_covers silence cycle missed h =
    let ticks = (silence + cycle - 1) / cycle in
    let up = rounded_up silence cycle h in
    elim (Bool-cases (silence == 0)) [
      | inl z ↦ inl (ground arith)
      | inr z ↦ elim (Bool-cases (leb (2 ^ 63) (silence + cycle - 1))) [
        | inl e ↦ inr (ground arith)
        | inr e ↦ elim (Bool-cases (ltb ticks 2)) [
          | inl f ↦ inl (rw (z, e, f) (two_cover ticks cycle silence (ground arith) up))
          | inr f ↦ inl (rw (z, e, f) up)
        ]
      ]
    ]

cycle_above : (interval : ℕ) → 1 ≤ heartbeat_cycle (pos interval)
unfolding heartbeat_cycle
cycle_above interval = ground arith

-- Whatever the options of a session, the request timeout, the limit on reloads and its window are
-- above zero, the backoff configuration is valid, the strategy and the recovery mode are known
-- ones, the interval of the heartbeat is one that ADS can express, and so many cycles as beats may
-- be missed are no shorter than the time of silence, unless its sum with the cycle is beyond 2 ^ 63.
pub configured-Valid :
    (opts : List SessionOption)
    → Valid (configured opts)
      × (((configured opts).heartbeat_silence
            ≤ (configured opts).heartbeat_missed
              * heartbeat_cycle (pos (configured opts).heartbeat_interval))
          ⊎ (2 ^ 63
              < (configured opts).heartbeat_silence
                + heartbeat_cycle (pos (configured opts).heartbeat_interval)))
unfolding configured resolve_heartbeat
configured-Valid opts =
    let o = apply_options opts defaults in
    (
      apply_options-Valid opts defaults defaults-Valid,
      normalize_covers o.heartbeat_silence (heartbeat_cycle (pos o.heartbeat_interval))
          o.heartbeat_missed (cycle_above o.heartbeat_interval),
    )
