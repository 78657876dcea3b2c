-- ===== src/Session/Recovery.antt =====
-- When the heartbeat watch acts: `heartbeatAllowedTicks`, `normalizeHeartbeatOptions`,
-- `heartbeatCycle`, `heartbeatAllowedMisses`, `consumeHeartbeat` and `recoveryStreak` of
-- cmd_notification.go. Counts of ticks and of failures are never negative there.
use go_ads.Common.{
  ℕ, zero, suc, ◌+◌, ◌-◌, ◌*◌, ◌/◌, ◌%◌, ◌^◌, ◌≤◌, ◌<◌, ◌≡◌, ap, Bool, true, false, ◌&&◌, ◌||◌, not,
  List, [], ◌∷◌, Bytes, ltb, leb, ◌==◌, if◌then◌else◌, arith, if-both, Bool-cases, inl, inr,
}
use go_ads.Common.Decimal.{ℤ, pos, negsuc}
use go_ads.Common.Int64.{lez}

abbrev max_failure_backoff_shift : ℕ
max_failure_backoff_shift = 6

abbrev pub max_heartbeat_recovery_backoff : ℕ
max_heartbeat_recovery_backoff = 30000000000

abbrev default_heartbeat_interval : ℕ
default_heartbeat_interval = 2000000000

abbrev default_heartbeat_missed : ℕ
default_heartbeat_missed = 5

-- `int64(n)` of what has been computed modulo 2 ^ 64
abbrev wrapped : ℕ → ℤ
wrapped n = if ltb (n % 2 ^ 64) (2 ^ 63) then pos (n % 2 ^ 64) else negsuc (2 ^ 64 - 1 - n % 2 ^ 64)

-- `min(base<<shift, max(budget, base))`
unfoldable pub backed_off : ℕ → ℕ → ℕ → ℤ
backed_off base shift budget =
    let cap_ticks = if ltb budget base then base else budget in
    let shifted = wrapped (base * 2 ^ shift) in
    if lez shifted (pos cap_ticks) then shifted else pos cap_ticks

unfoldable pub heartbeat_allowed_ticks : ℕ → ℕ → ℕ → ℤ
heartbeat_allowed_ticks base consecutive_failures cycle =
    let shift =
      if ltb consecutive_failures max_failure_backoff_shift
      then consecutive_failures
      else max_failure_backoff_shift in
    if consecutive_failures == 0 || (base == 0 || cycle == 0)
    then pos base
    else backed_off base shift (max_heartbeat_recovery_backoff / cycle)

unfoldable pub heartbeat_cycle : ℤ → ℕ
heartbeat_cycle (negsuc _) = default_heartbeat_interval
heartbeat_cycle (pos n) = if n == 0 then default_heartbeat_interval else n

unfoldable pub heartbeat_allowed_misses : ℕ → ℕ
heartbeat_allowed_misses missed = if leb 2 missed then missed else default_heartbeat_missed

-- The number of ticks for a time of silence, rounded up; the old number where none is set. A sum
-- beyond an int64 wraps to a negative one, and gives two ticks.
unfoldable pub normalize_heartbeat_options : ℕ → ℕ → ℕ → ℕ
normalize_heartbeat_options silence cycle missed =
    let sum = silence + cycle - 1 in
    let ticks = if leb (2 ^ 63) sum then 0 else sum / cycle in
    if silence == 0 then missed else if ltb ticks 2 then 2 else ticks

pub record Heartbeat : Type 0 where
  pub handle : ℕ
  pub beats : ℕ  -- uint64
  pub symbol_version : ℕ  -- uint8

-- Whether the sample was the beat, and whether it showed that the symbols have changed.
unfoldable pub consume_heartbeat : ℕ → Bytes → Heartbeat → (Bool × Bool) × Heartbeat
consume_heartbeat handle content h =
    if handle == 0 || not (handle == h.handle)
    then ((false, false), h)
    else (let counted = record h { beats = (h.beats + 1) % 2 ^ 64 } in
        elim content [
          | [] ↦ ((true, false), counted)
          | version ∷ _ ↦
              if not (h.symbol_version == 0) && not (version == h.symbol_version)
              then ((true, true), record counted { symbol_version = version })
              else ((true, false), counted)
        ])

pub record RecoveryStreak : Type 0 where
  pub failures : ℕ
  pub healthy : ℕ
  pub stable_ticks : ℕ

unfoldable pub attempt : RecoveryStreak → RecoveryStreak
attempt r = record r { failures = r.failures + 1; healthy = 0 }

unfoldable pub healthy_tick : RecoveryStreak → RecoveryStreak
healthy_tick r =
    let next = record r { healthy = r.healthy + 1 } in
    if leb next.stable_ticks next.healthy then record next { failures = 0 } else next

unfoldable pub unhealthy_tick : RecoveryStreak → RecoveryStreak
unhealthy_tick r = record r { healthy = 0 }

up_to_six : (P : ℕ → Type 0) (n : ℕ) → n ≤ 6 → P 0 → P 1 → P 2 → P 3 → P 4 → P 5 → P 6 → P n
up_to_six P zero h a b c d e f g = a
up_to_six P (suc zero) h a b c d e f g = b
up_to_six P (suc (suc zero)) h a b c d e f g = c
up_to_six P (suc (suc (suc zero))) h a b c d e f g = d
up_to_six P (suc (suc (suc (suc zero)))) h a b c d e f g = e
up_to_six P (suc (suc (suc (suc (suc zero))))) h a b c d e f g = f
up_to_six P (suc (suc (suc (suc (suc (suc zero)))))) h a b c d e f g = g
up_to_six P (suc (suc (suc (suc (suc (suc (suc n))))))) h a b c d e f g = absurd (omega arith)

-- From the base up to the base and the budget.
abbrev Between : ℕ → ℕ → ℤ → Type 0
Between base budget z = (lez (pos base) z ≡ true) × (lez z (pos (base + budget)) ≡ true)

backed_off-Between :
    (base shift budget : ℕ)
    → base < 2 ^ 56
    → shift ≤ 6
    → Between base budget (backed_off base shift budget)
unfolding backed_off lez
backed_off-Between base shift budget h k =
    up_to_six (λ n. Between base budget (backed_off base n budget)) shift k (ground arith)
      (ground arith) (ground arith) (ground arith) (ground arith) (ground arith) (ground arith)

-- For a base below 2 ^ 56 the window of silence is at least the base, and at most the base and the
-- number of ticks in 30 seconds.
pub heartbeat_allowed_ticks_bounds :
    (base consecutive_failures cycle : ℕ)
    → base < 2 ^ 56
    → (lez (pos base) (heartbeat_allowed_ticks base consecutive_failures cycle) ≡ true)
      × (lez
            (heartbeat_allowed_ticks base consecutive_failures cycle)
            (pos (base + max_heartbeat_recovery_backoff / cycle))
          ≡ true)
unfolding heartbeat_allowed_ticks
heartbeat_allowed_ticks_bounds base consecutive_failures cycle h =
    let budget = max_heartbeat_recovery_backoff / cycle in
    if-both (Between base budget) (consecutive_failures == 0 || (base == 0 || cycle == 0))
      (unfold lez in (ground arith, ground arith))
      (elim (Bool-cases (ltb consecutive_failures max_failure_backoff_shift)) [
        | inl e ↦ rw e (backed_off-Between base consecutive_failures budget h (ground (arith, e)))
        | inr e ↦ rw e (backed_off-Between base 6 budget h (omega arith))
      ])

-- A beat that shows a change shows it once: the same beat again shows none.
pub change_shown_once :
    (handle : ℕ) (content : Bytes) (h : Heartbeat)
    → (consume_heartbeat handle content (consume_heartbeat handle content h).1).0.1 ≡ false
unfolding consume_heartbeat
change_shown_once handle [] h = ground arith
change_shown_once handle (version ∷ rest) h = ground arith

-- What the watch tells the streak.
pub data Tick : Type 0 where
  attempted was_healthy was_unhealthy : Tick

unfoldable pub tick : RecoveryStreak → Tick → RecoveryStreak
unfolding attempt healthy_tick unhealthy_tick
tick r attempted = attempt r
tick r was_healthy = healthy_tick r
tick r was_unhealthy = unhealthy_tick r

unfoldable pub ticks : RecoveryStreak → List Tick → RecoveryStreak
unfolding tick
ticks r [] = r
ticks r (t ∷ ts) = ticks (tick r t) ts

-- The longest run of healthy ticks, after `n` of them.
abbrev pub longest_run : ℕ → List Tick → ℕ
longest_run n [] = n
longest_run n (was_healthy ∷ ts) = longest_run (n + 1) ts
longest_run n (_ ∷ ts) = let rest = longest_run 0 ts in if ltb rest n then n else rest

le-longest_run : (n : ℕ) (ts : List Tick) → n ≤ longest_run n ts
le-longest_run n [] = omega arith
le-longest_run n (was_healthy ∷ ts) = omega (arith, le-longest_run (n + 1) ts)
le-longest_run n (attempted ∷ ts) = ground arith
le-longest_run n (was_unhealthy ∷ ts) = ground arith

not_stable :
    (r : RecoveryStreak)
    → leb r.stable_ticks (r.healthy + 1) ≡ false
    → healthy_tick r ≡ record r { healthy = r.healthy + 1 }
unfolding healthy_tick
not_stable r e = rw e

-- Until as many healthy ticks as a stable stretch has have come in a row, no failure is forgotten.
pub failures_kept :
    (ts : List Tick) (r : RecoveryStreak)
    → longest_run r.healthy ts < r.stable_ticks
    → r.failures ≤ (ticks r ts).failures
unfolding ticks tick attempt unhealthy_tick
failures_kept [] r h = omega arith
failures_kept (attempted ∷ ts) r h = omega (arith, failures_kept ts (attempt r) (ground arith))
failures_kept (was_unhealthy ∷ ts) r h =
    omega (arith, failures_kept ts (unhealthy_tick r) (ground arith))
failures_kept (was_healthy ∷ ts) r h =
    let e : leb r.stable_ticks (r.healthy + 1) ≡ false =
      ground (arith, le-longest_run (r.healthy + 1) ts) in
    omega (
      arith,
      failures_kept ts (record r { healthy = r.healthy + 1 }) h,
      ap (λ q. (ticks q ts).failures) (not_stable r e),
    )
