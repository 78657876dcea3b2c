-- ===== src/Session/Watch/Laws.antt =====
-- How soon the watch acts on silence.
use go_ads.Common.{
  ℕ, suc, zero, ◌+◌, ◌/◌, ◌^◌, ◌≡◌, ◌<◌, refl, sym, ◌∙◌, Bool, true, false, ◌&&◌, ◌||◌, not, List,
  [], ◌∷◌, ◌++◌, length, All, arith, inl, inr, ◌⊎◌, Bool-cases, ltb, ◌==◌, if◌then◌else◌, if-both,
}
use go_ads.Common.Decimal.{ℤ, pos, negsuc}
use go_ads.Common.Int64.{lez, lez_trans}
use go_ads.Session.Recovery.{
  heartbeat_allowed_ticks, heartbeat_allowed_ticks_bounds, max_heartbeat_recovery_backoff, attempt,
  unhealthy_tick,
}
use go_ads.Session.Resubscribe.{Recovery}
use go_ads.Session.Watch.{
  immediate, Watch, Tick, Action, recovers, heartbeat_failures_before_reconnect, Stepped, escalate,
  synced, recover, act, silence, examine, step, watch,
}

unfoldable pub is_recovery : Action → Bool
is_recovery recovers = true
is_recovery _ = false

-- A recovery is among what is started.
unfoldable pub has_recovery : List Action → Bool
unfolding is_recovery
has_recovery [] = false
has_recovery (a ∷ as') = is_recovery a || has_recovery as'

-- The session has subscriptions, its beat is registered, and none has come since the last one that
-- was heard.
pub record IsSilent (gen beats : ℕ) (t : Tick) : Type 0 where
  pub same_gen : t.gen ≡ gen
  pub connected : t.is_connected ≡ true
  pub client : t.has_client ≡ true
  pub protected : (t.wanted == 0 && t.active == 0) ≡ false
  pub no_beat : t.beats ≡ beats
  pub beating : (t.heartbeat_handle == 0) ≡ false

-- What holds of each branch holds of the split.
recovery-both :
    (P : Stepped → Type 0) (r : Recovery) (x y z : Stepped)
    → P x
    → P y
    → P z
    → P (elim r as (λ _. Stepped) [
      | Recovery.done ↦ x
      | Recovery.deferred ↦ y
      | Recovery.failed ↦ z
    ])
recovery-both P Recovery.done x y z p q r = p
recovery-both P Recovery.deferred x y z p q r = q
recovery-both P Recovery.failed x y z p q r = r

escalate_starts :
    (frames : ℕ) (w : Watch) (rest : List Action)
    → has_recovery ((escalate (recovers ∷ []) frames w).0.0 ++ rest) ≡ true
unfolding escalate has_recovery
escalate_starts frames w rest =
    let P = λ (s : Stepped). has_recovery (s.0.0 ++ rest) ≡ true in
    if-both P (not (frames == w.frames_at_window)) refl
      (if-both P (ltb (w.frameless_windows + 1) heartbeat_failures_before_reconnect) refl refl)

-- Whatever a recovery comes to, it was started.
recover_starts :
    (misses cycle : ℕ) (t : Tick) (w : Watch) (rest : List Action)
    → has_recovery ((recover immediate misses cycle t w).0.0 ++ rest) ≡ true
unfolding recover has_recovery
recover_starts misses cycle t w rest =
    recovery-both (λ s. has_recovery (s.0.0 ++ rest) ≡ true) t.recovery _ _ _ refl refl
      (escalate_starts t.frames (record w { streak = attempt w.streak }) rest)

module _ (misses cycle : ℕ) where
  abbrev window : Watch → ℤ
  window w = heartbeat_allowed_ticks misses w.streak.failures cycle

  abbrev noted : Tick → Watch → Watch
  noted t w = record w { gap_ticks = if ltb t.active t.registered then w.gap_ticks + 1 else 0 }

  synced_same : (t : Tick) (w : Watch) → t.gen ≡ w.last_gen → synced t w ≡ w
  unfolding synced
  synced_same t w e = let f : (t.gen == w.last_gen) ≡ true = ground arith in rw f refl

  examine_silent :
      (t : Tick) (w : Watch)
      → t.beats ≡ w.last_beats
      → examine immediate misses cycle t w ≡ silence immediate misses cycle t (noted t w)
  unfolding examine
  examine_silent t w e =
      let f : (t.beats == w.last_beats) ≡ true = ground arith in
      elim (Bool-cases (ltb t.active t.registered)) [
        | inl g ↦ rw (f, g) refl
        | inr g ↦ rw (f, g) refl
      ]

  silent_step :
      (t : Tick) (w : Watch)
      → IsSilent w.last_gen w.last_beats t
      → step immediate misses cycle t w ≡ silence immediate misses cycle t (noted t w)
  unfolding step
  silent_step t w s =
      let usable : (not t.is_connected || not t.has_client) ≡ false =
        rw (s.connected, s.client) refl in
      rw (synced_same t w s.same_gen, usable, s.protected) (examine_silent t w s.no_beat)

  -- Either the window has passed and a recovery is started, or the tick is counted.
  silence_lem :
      (t : Tick) (w : Watch) (rest : List Action)
      → (t.heartbeat_handle == 0) ≡ false
      → (has_recovery ((silence immediate misses cycle t w).0.0 ++ rest) ≡ true)
        ⊎ ((lez (window w) (pos (w.quiet_ticks + 1)) ≡ false)
            × (silence immediate misses cycle t w ≡ (
              ([], false),
              record w { quiet_ticks = w.quiet_ticks + 1; streak = unhealthy_tick w.streak },
            )))
  unfolding silence act unhealthy_tick
  silence_lem t w rest b = elim (Bool-cases (lez (window w) (pos (w.quiet_ticks + 1)))) [
    | inl e ↦ inl (rw (e, b) (recover_starts misses cycle t _ rest))
    | inr e ↦ inr (e, rw e refl)
  ]

  -- The window has not passed after so many ticks, so one more has a smaller rest.
  one_less :
      (z : ℤ) (q n : ℕ)
      → lez z (pos (q + 1 + n)) ≡ true
      → lez z (pos (q + 1)) ≡ false
      → (m : ℕ) × (n ≡ m + 1) × (lez z (pos (q + 1 + 1 + m)) ≡ true)
  unfolding lez
  one_less (pos z) q zero l e = absurd (ground arith)
  one_less (pos z) q (suc m) l e = (m, omega arith, ground arith)
  one_less (negsuc z) q n l e = absurd cc

  -- A recovery comes in the first window that passes.
  soon :
      (n gen beats : ℕ) (ts : List Tick) (w : Watch)
      → w.last_gen ≡ gen
      → w.last_beats ≡ beats
      → lez (window w) (pos (w.quiet_ticks + 1 + n)) ≡ true
      → All (IsSilent gen beats) ts
      → n < length ts
      → has_recovery (watch immediate misses cycle ts w) ≡ true
  unfolding watch unhealthy_tick
  soon n gen beats [] w e f l s k = absurd (omega arith)
  soon n gen beats (t ∷ ts) w e f l (s, ss) k =
      let silent : IsSilent w.last_gen w.last_beats t = record {
        same_gen = s.same_gen ∙ sym e;
        connected = s.connected;
        client = s.client;
        protected = s.protected;
        no_beat = s.no_beat ∙ sym f;
        beating = s.beating;
      } in
      let st = silence immediate misses cycle t (noted t w) in
      rw (silent_step t w silent)
        (elim (silence_lem t (noted t w)
          (if st.0.1 then [] else watch immediate misses cycle ts st.1) s.beating) [
            | inl g ↦ g
            | inr (late, q) ↦
                let (m, h, l') = one_less (window w) w.quiet_ticks n l late in
                let next : Watch = record (noted t w) {
                  quiet_ticks = w.quiet_ticks + 1;
                  streak = unhealthy_tick w.streak;
                } in
                rw q (soon m gen beats ts next e f l' ss (omega (arith, h, k)))
          ])

  -- While the session has subscriptions whose beat is registered and none comes, a recovery is
  -- started at the latest by the tick whose number is one more than the number of beats that may be
  -- missed and of the cycles in 30 seconds together, in the mode that registers again, if the number
  -- that may be missed is below 2 ^ 56.
  pub watch_recovers :
      (ts : List Tick) (w : Watch)
      → misses < 2 ^ 56
      → All (IsSilent w.last_gen w.last_beats) ts
      → misses + max_heartbeat_recovery_backoff / cycle < length ts
      → has_recovery (watch immediate misses cycle ts w) ≡ true
  watch_recovers ts w h s k =
      let n = misses + max_heartbeat_recovery_backoff / cycle in
      let (_, bound) = heartbeat_allowed_ticks_bounds misses w.streak.failures cycle h in
      let wider : lez (pos n) (pos (w.quiet_ticks + 1 + n)) ≡ true = unfold lez in ground arith in
      soon n w.last_gen w.last_beats ts w refl refl
        (lez_trans (window w) (pos n) (pos (w.quiet_ticks + 1 + n)) bound wider) s k
