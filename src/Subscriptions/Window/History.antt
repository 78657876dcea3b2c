-- ===== src/Subscriptions/Window/History.antt =====
-- Any sequence of calls on the window, from a closed one on.
use go_ads.Common.{ℕ, refl, Bool, List, [], ◌∷◌, Bytes, arith}
use go_ads.Common.Dict.{ℕ-Key, IsDict}
use go_ads.Common.Dict.Measure.{total}
use go_ads.Subscriptions.Window.{
  Window, begin_subscribe, subscribe_progress, replay_early_samples, buffer_early_sample,
  end_subscribe,
}
use go_ads.Subscriptions.Window.Laws.{Fits}
use go_ads.Subscriptions.Window.Steps.{
  replay-Fits, begin-Fits, progress-Fits, buffer-Fits, end-Fits,
}

-- The calls on the window, each with what it reads of the clock and of activeNotifications.
pub data Call : Type 0 where
  begins : ℕ → Call
  progresses : ℕ → ℕ → Call
  buffers : (ℕ → Bool) → ℕ → ℕ → Bytes → Call
  replays : (ℕ → Bool) → List ℕ → Call
  ends : ℕ → (ℕ → Bool) → ℕ → List ℕ → Call

unfoldable pub step : Window → Call → Window
step w (begins now) = (begin_subscribe now w).1
step w (progresses now token) = subscribe_progress now token w
step w (buffers bound handle timestamp content) =
    (buffer_early_sample bound handle timestamp content w).1
step w (replays bound hs) = (replay_early_samples bound hs w).1
step w (ends now bound token committed) = (end_subscribe now bound token committed w).1

unfoldable pub run : Window → List Call → Window
run w [] = w
run w (c ∷ cs) = run (step w c) cs

unfoldable pub closed : Window
closed = record {
  open_subscribes = [];
  next_subscribe_token = 0;
  subscribe_in_flight = 0;
  last_subscribe_ns = 0;
  early_samples = [];
  early_bytes = 0;
}

step-Fits : (c : Call) (w : Window) → Fits w → Fits (step w c)
unfolding step
step-Fits (begins now) w v = begin-Fits now w v
step-Fits (progresses now token) w v = progress-Fits now token w v
step-Fits (buffers bound handle timestamp content) w v =
    buffer-Fits bound handle timestamp content w v
step-Fits (replays bound hs) w v = replay-Fits bound hs w v
step-Fits (ends now bound token committed) w v = end-Fits now bound token committed w v

run-Fits : (cs : List Call) (w : Window) → Fits w → Fits (run w cs)
unfolding run
run-Fits [] w v = v
run-Fits (c ∷ cs) w v = run-Fits cs (step w c) (step-Fits c w v)

-- After any sequence of calls, the buffer holds at most 4096 samples and 8 MiB, one for each
-- handle, its byte counter is the sum of the lengths, and the count of the subscribes in flight is
-- that of the open ones.
pub run-closed-Fits : (cs : List Call) → Fits (run closed cs)
unfolding closed total IsDict
run-closed-Fits cs = run-Fits cs closed (record {
  samples = tt;
  counted = refl;
  few = omega arith;
  small = omega arith;
  opens = tt;
  in_flight = refl;
})
