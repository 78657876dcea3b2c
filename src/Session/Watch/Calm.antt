-- ===== src/Session/Watch/Calm.antt =====
-- The watch leaves a session alone whose beat arrives.
use go_ads.Common.{
  ℕ, ◌≡◌, refl, sym, ◌∙◌, true, false, ◌&&◌, ◌||◌, not, List, [], ◌∷◌, arith, ltb, leb, ◌==◌,
  if◌then◌else◌,
}
use go_ads.Session.Recovery.{healthy_tick, unhealthy_tick}
use go_ads.Session.Watch.{HeartbeatRecovery, Watch, Tick, synced, beat, examine, step, watch}

-- Each tick brings a beat, no subscription is missing, and the connection stays.
unfoldable pub IsBeating : ℕ → ℕ → List Tick → Type 0
IsBeating gen beats [] = Unit {0}
IsBeating gen beats (t ∷ ts) =
    (t.gen ≡ gen)
    × ((not t.is_connected || not t.has_client) ≡ false)
    × ((t.wanted == 0 && t.active == 0) ≡ false)
    × ((t.beats == beats) ≡ false)
    × (ltb t.active t.registered ≡ false)
    × IsBeating gen t.beats ts

module _ (mode : HeartbeatRecovery) (misses cycle : ℕ) where
  abbrev heard : Tick → Watch → Watch
  heard t w =
      let calm = record w {
        gap_ticks = 0;
        last_beats = t.beats;
        quiet_ticks = 0;
        silent_windows = 0;
      } in
      record calm {
        streak =
            if leb t.registered t.active then healthy_tick w.streak else unhealthy_tick w.streak;
      }

  calm_step :
      (t : Tick) (w : Watch)
      → t.gen ≡ w.last_gen
      → (not t.is_connected || not t.has_client) ≡ false
      → (t.wanted == 0 && t.active == 0) ≡ false
      → (t.beats == w.last_beats) ≡ false
      → ltb t.active t.registered ≡ false
      → step mode misses cycle t w ≡ (([], false), heard t w)
  unfolding step synced examine beat
  calm_step t w e c p b r =
      let g : (t.gen == w.last_gen) ≡ true = ground arith in rw (synced, g, c, p, b, r) refl

  still :
      (gen beats : ℕ) (ts : List Tick) (w : Watch)
      → w.last_gen ≡ gen
      → w.last_beats ≡ beats
      → IsBeating gen beats ts
      → watch mode misses cycle ts w ≡ []
  unfolding watch IsBeating
  still gen beats [] w e f h = refl
  still gen beats (t ∷ ts) w e f (g, c, p, b, r, h) =
      let new : (t.beats == w.last_beats) ≡ false = rw f b in
      rw (calm_step t w (g ∙ sym e) c p new r) (still gen t.beats ts (heard t w) e refl h)

  -- In each mode, while each tick brings a beat, no subscription is missing, and the connection
  -- stays, nothing is started.
  pub watch_calm :
      (ts : List Tick) (w : Watch)
      → IsBeating w.last_gen w.last_beats ts
      → watch mode misses cycle ts w ≡ []
  watch_calm ts w h = still w.last_gen w.last_beats ts w refl refl h
