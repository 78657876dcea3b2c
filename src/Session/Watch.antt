-- ===== src/Session/Watch.antt =====
-- The loop of `heartbeatWatch` of cmd_notification.go as a step for each tick. What the session and
-- the Client show at a tick, and what a recovery that is started comes to, is in `Tick`; the loop's
-- variables are in `Watch`. The logging is left out.
pub mod Laws
pub mod Calm
mod Samples
use go_ads.Common.{
  ℕ, ◌+◌, ◌*◌, Bool, true, false, ◌&&◌, ◌||◌, not, List, [], ◌∷◌, ◌++◌, ltb, leb, ◌==◌,
  if◌then◌else◌,
}
use go_ads.Common.Decimal.{ℤ, pos}
use go_ads.Common.Int64.{lez}
use go_ads.Session.Recovery.{
  RecoveryStreak, attempt, healthy_tick, unhealthy_tick, heartbeat_allowed_ticks,
}
use go_ads.Session.Resubscribe.{Recovery, deferred}

abbrev pub heartbeat_failures_before_reconnect : ℕ
heartbeat_failures_before_reconnect = 2

-- HeartbeatRecovery of the source
pub data HeartbeatRecovery : Type 0 where
  immediate confirm observe : HeartbeatRecovery

pub record Watch : Type 0 where
  pub last_gen : ℕ
  pub last_beats : ℕ
  pub quiet_ticks : ℕ
  pub streak : RecoveryStreak
  pub frames_at_window : ℕ
  pub frameless_windows : ℕ
  pub gap_ticks : ℕ
  pub silent_windows : ℕ

pub record Tick : Type 0 where
  pub gen : ℕ
  pub is_connected : Bool
  pub has_client : Bool  -- whose context is not done
  pub active : ℕ
  pub wanted : ℕ
  pub registered : ℕ
  pub beats : ℕ
  pub heartbeat_handle : ℕ
  pub frames : ℕ
  pub recovery : Recovery  -- what recoverDeadSubscriptions returns

-- What a tick starts: `recovers` recoverDeadSubscriptions, `establishes` establishHeartbeat,
-- `tells` the callback, and `reconnects` triggerReconnect.
pub data Action : Type 0 where
  recovers establishes tells reconnects : Action

-- `streak.reset()`
unfoldable pub reset : RecoveryStreak → RecoveryStreak
reset r = record r { failures = 0; healthy = 0 }

-- What is started, whether the loop has returned, and its variables.
abbrev pub Stepped : Type 0
Stepped = (List Action × Bool) × Watch

abbrev pub continues : Watch → Stepped
continues w = (([], false), w)

-- The link is given up after a number of windows without a frame.
unfoldable pub escalate : List Action → ℕ → Watch → Stepped
escalate started frames w =
    let n = w.frameless_windows + 1 in
    if not (frames == w.frames_at_window)
    then ((started, false), record w { frames_at_window = frames; frameless_windows = 0 })
    else if ltb n heartbeat_failures_before_reconnect
    then ((started, false), record w { frameless_windows = n })
    else ((started ++ (reconnects ∷ []), true), record w { frameless_windows = n })

-- `if sess.recoverDeadSubscriptions() != recoveryDeferred { streak.attempt() }`
unfoldable pub counted : Recovery → RecoveryStreak → RecoveryStreak
counted deferred r = r
counted _ r = attempt r

unfoldable pub synced : Tick → Watch → Watch
synced t w = if t.gen == w.last_gen then w else record w {
  last_gen = t.gen;
  last_beats = t.beats;
  quiet_ticks = 0;
  streak = reset w.streak;
}

module _ (mode : HeartbeatRecovery) (misses cycle : ℕ) where
  abbrev pub allowed : Watch → ℤ
  allowed w = heartbeat_allowed_ticks misses w.streak.failures cycle

  -- The subscriptions are released and registered again.
  unfoldable pub recover : Tick → Watch → Stepped
  recover t w =
      let tried = record w { streak = attempt w.streak } in
      elim t.recovery [
        | Recovery.done ↦ ((recovers ∷ [], false), tried)
        | Recovery.deferred ↦ ((recovers ∷ [], false), w)
        | Recovery.failed ↦ escalate (recovers ∷ []) t.frames tried
      ]

  -- The window has passed without a beat.
  unfoldable pub act : Tick → Watch → Stepped
  act t w =
      let tried = record w { streak = attempt w.streak } in
      elim mode [
        | immediate ↦ recover t (record w { silent_windows = 0 })
        | confirm ↦
            if ltb (w.silent_windows + 1) 2
            then continues (record w { silent_windows = w.silent_windows + 1 })
            else recover t (record w { silent_windows = 0 })
        | observe ↦ ((if w.streak.failures == 0 then tells ∷ [] else [], false), tried)
      ]

  -- A tick without a beat.
  unfoldable pub silence : Tick → Watch → Stepped
  silence t w =
      let quiet = record w { quiet_ticks = w.quiet_ticks + 1; streak = unhealthy_tick w.streak } in
      let acting = record quiet { quiet_ticks = 0 } in
      if not (lez (allowed quiet) (pos quiet.quiet_ticks))
      then continues quiet
      else if t.heartbeat_handle == 0
      then escalate (establishes ∷ []) t.frames (record acting { streak = attempt acting.streak })
      else act t acting

  unfoldable pub beat : Tick → Watch → Stepped
  beat t w =
      let heard = record w { last_beats = t.beats; quiet_ticks = 0; silent_windows = 0 } in
      continues (record heard {
        streak =
            if leb t.registered t.active then healthy_tick w.streak else unhealthy_tick w.streak;
      })

  -- The subscriptions that are missing, then the beat.
  unfoldable pub examine : Tick → Watch → Stepped
  examine t w =
      let is_beat = not (t.beats == w.last_beats) in
      let is_short = ltb t.active t.registered in
      let noted = record w { gap_ticks = if is_short then w.gap_ticks + 1 else 0 } in
      if is_short && (is_beat && lez (allowed w) (pos (w.gap_ticks + 1)))
      then (
        (recovers ∷ [], false),
        record w {
          gap_ticks = 0;
          last_beats = t.beats;
          quiet_ticks = 0;
          streak = counted t.recovery w.streak;
        },
      )
      else if is_beat
      then beat t noted
      else silence t noted

  unfoldable pub step : Tick → Watch → Stepped
  step t w =
      let now = synced t w in
      if not t.is_connected || not t.has_client
      then continues now
      else if t.wanted == 0 && t.active == 0
      then continues now
      else examine t now

  -- What the ticks start, until the loop returns.
  unfoldable pub watch : List Tick → Watch → List Action
  unfolding step
  watch [] w = []
  watch (t ∷ ts) w =
      let ((started, stopped), w') = step t w in
      let later = watch ts w' in started ++ (if stopped then [] else later)
