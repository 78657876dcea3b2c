-- ===== src/Subscriptions/Window/Steps.antt =====
-- Each call on the window keeps the buffer within its limits and the counters true.
use go_ads.Common.{
  ℕ, ◌-◌, ◌≤◌, ◌≡◌, refl, sym, ◌∙◌, Bool, true, false, ◌&&◌, none, some, inl, inr, List, [], ◌∷◌,
  Bytes, arith, Option-cases, if-both, length, ltb, ◌==◌, if◌then◌else◌,
}
use go_ads.Common.Dict.{
  Dict, ℕ-Key, lookup, erase, IsDict, insert-IsDict, erase-IsDict, has_of_lookup, has_present,
}
use go_ads.Common.Dict.Measure.{total, total-erase, length-insert_old, length-erase-le}
use go_ads.Subscriptions.Window.{
  EarlySample, Window, early_sample_max_handles, early_sample_max_bytes, begin_subscribe,
  subscribe_progress, park, replay_early_samples, buffer_early_sample, close_subscribe,
  end_subscribe,
}
use go_ads.Subscriptions.Window.Laws.{size, Fits, park-Fits}

-- Taking a handle's sample out of the buffer.
abbrev taken : ℕ → Window → List (ℕ × EarlySample) × Window
taken h w = elim (lookup h w.early_samples) [
  | none ↦ ([], w)
  | some s ↦ (
    (h, s) ∷ [],
    record w {
      early_samples = erase h w.early_samples;
      early_bytes = w.early_bytes - length s.content;
    },
  )
]

taken-Fits : (h : ℕ) (w : Window) → Fits w → Fits (taken h w).1
taken-Fits h w v = elim (Option-cases (lookup h w.early_samples)) [
  | inl e ↦ rw (taken, e) v
  | inr (s, e) ↦
      rw (taken, e)
        (record {
          samples = erase-IsDict h w.early_samples v.samples;
          counted = omega (arith, v.counted, total-erase size h s w.early_samples v.samples e);
          few = omega (arith, v.few, length-erase-le h w.early_samples);
          small = omega (arith, v.small);
          opens = v.opens;
          in_flight = v.in_flight;
        })
]

pub replay-Fits :
    (bound : ℕ → Bool) (hs : List ℕ) (w : Window)
    → Fits w
    → Fits (replay_early_samples bound hs w).1
unfolding replay_early_samples
replay-Fits bound [] w v = v
replay-Fits bound (h ∷ hs) w v =
    replay-Fits bound hs _
      (if-both (λ (p : List (ℕ × EarlySample) × Window). Fits p.1) (bound h) (taken-Fits h w v) v)

pub begin-Fits : (now : ℕ) (w : Window) → Fits w → Fits (begin_subscribe now w).1
unfolding begin_subscribe
begin-Fits now w v = record {
  samples = v.samples;
  counted = v.counted;
  few = v.few;
  small = v.small;
  opens = insert-IsDict _ now w.open_subscribes v.opens;
  in_flight = refl;
}

pub progress-Fits : (now token : ℕ) (w : Window) → Fits w → Fits (subscribe_progress now token w)
unfolding subscribe_progress
progress-Fits now token w v = elim (Option-cases (lookup token w.open_subscribes)) [
  | inl e ↦ rw (has_of_lookup token w.open_subscribes e) v
  | inr (start, e) ↦ rw (has_present token w.open_subscribes start e) (record {
    samples = v.samples;
    counted = v.counted;
    few = v.few;
    small = v.small;
    opens = insert-IsDict token now w.open_subscribes v.opens;
    in_flight = v.in_flight ∙ sym (length-insert_old token now start w.open_subscribes e);
  })
]

pub buffer-Fits :
    (bound : ℕ → Bool) (handle timestamp : ℕ) (content : Bytes) (w : Window)
    → Fits w
    → Fits (buffer_early_sample bound handle timestamp content w).1
unfolding buffer_early_sample
buffer-Fits bound handle timestamp content w v =
    if-both (λ (p : List (ℕ × EarlySample) × Window). Fits p.1) (park handle timestamp content w).0
      (replay-Fits bound (handle ∷ []) _ (park-Fits handle timestamp content w v))
      (park-Fits handle timestamp content w v)

total_nothing : (d : Dict ℕ EarlySample) → ltb 0 (length d) ≡ false → total size d ≡ 0
unfolding total
total_nothing [] e = refl
total_nothing (x ∷ d) e = ground arith

close_counted :
    (last : Bool) (w : Window)
    → Fits w
    → ((if last && ltb 0 (length w.early_samples) then 0 else w.early_bytes)
        ≡ total size (if last then [] else w.early_samples))
unfolding total
close_counted false w v = v.counted
close_counted true w v = ground (arith, v.counted, total_nothing w.early_samples)

close-Fits : (token : ℕ) (w : Window) → Fits w → Fits (close_subscribe token w)
unfolding close_subscribe IsDict
close-Fits token w v =
    let last = length (erase token w.open_subscribes) == 0 in
    record {
      samples = if-both IsDict last tt v.samples;
      counted = close_counted last w v;
      few = if-both (λ d. length d ≤ early_sample_max_handles) last {a = []} (omega arith) v.few;
      small =
          if-both (λ n. n ≤ early_sample_max_bytes) (last && ltb 0 (length w.early_samples)) {a = 0}
            {b = w.early_bytes} (omega arith) v.small;
      opens = erase-IsDict token w.open_subscribes v.opens;
      in_flight = refl;
    }

pub end-Fits :
    (now : ℕ) (bound : ℕ → Bool) (token : ℕ) (committed : List ℕ) (w : Window)
    → Fits w
    → Fits (end_subscribe now bound token committed w).1
unfolding end_subscribe
end-Fits now bound token committed w v = close-Fits token _ (
    replay-Fits bound committed _ (record {
      samples = v.samples;
      counted = v.counted;
      few = v.few;
      small = v.small;
      opens = v.opens;
      in_flight = v.in_flight;
    }))
