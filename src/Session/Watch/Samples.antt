-- ===== src/Session/Watch/Samples.antt =====
-- The laws of the watch at concrete ticks.
use go_ads.Common.{ℕ, ◌≡◌, refl, true, [], ◌∷◌, arith}
use go_ads.Session.Resubscribe.{failed}
use go_ads.Session.Watch.{Watch, Tick, immediate, confirm, watch}
use go_ads.Session.Watch.Laws.{IsSilent, has_recovery, watch_recovers}
use go_ads.Session.Watch.Calm.{IsBeating, watch_calm}

abbrev fresh : Watch
fresh = record {
  last_gen = 1;
  last_beats = 7;
  quiet_ticks = 0;
  streak = record { failures = 1; healthy = 0; stable_ticks = 4 };
  frames_at_window = 0;
  frameless_windows = 0;
  gap_ticks = 0;
  silent_windows = 0;
}

abbrev tick : ℕ → Tick
tick beats = record {
  gen = 1;
  is_connected = true;
  has_client = true;
  active = 2;
  wanted = 2;
  registered = 2;
  beats = beats;
  heartbeat_handle = 9;
  frames = 3;
  recovery = failed;
}

is_silent : IsSilent 1 7 (tick 7)
is_silent = record {
  same_gen = refl;
  connected = refl;
  client = refl;
  protected = refl;
  no_beat = refl;
  beating = refl;
}

-- Two beats may be missed, and thirty seconds are one cycle.
watch_recovers_example :
    has_recovery (watch immediate 2 30000000000 (tick 7 ∷ tick 7 ∷ tick 7 ∷ tick 7 ∷ []) fresh)
    ≡ true
watch_recovers_example =
    watch_recovers 2 30000000000 (tick 7 ∷ tick 7 ∷ tick 7 ∷ tick 7 ∷ []) fresh (omega arith)
      (is_silent, (is_silent, (is_silent, (is_silent, tt)))) (omega arith)

watch_calm_example : watch confirm 2 30000000000 (tick 8 ∷ tick 9 ∷ []) fresh ≡ []
unfolding IsBeating
watch_calm_example =
    watch_calm confirm 2 30000000000 (tick 8 ∷ tick 9 ∷ []) fresh
      (refl, refl, refl, refl, refl, (refl, refl, refl, refl, refl, tt))
