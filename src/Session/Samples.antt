-- ===== src/Session/Samples.antt =====
-- The laws of the session's waits, streaks and reloads at concrete values.
use go_ads.Common.{
  List, ◌≡◌, ◌≤◌, ◌<◌, ◌+◌, ◌*◌, ◌^◌, ◌⊎◌, refl, true, false, [], ◌∷◌, length, arith,
}
use go_ads.Common.Decimal.{pos, negsuc}
use go_ads.Defs.{detect_stale_cache}
use go_ads.Session.Options.{
  SessionOption, with_request_timeout, with_notification_silence_timeout, configured,
}
use go_ads.Session.Options.Laws.{Valid, configured-Valid}
use go_ads.Session.Recovery.{heartbeat_cycle}
use go_ads.Session.Reload.{prune, granted, granted_within_window}
use go_ads.Session.Stale.{callback, reload, any_stale, one_each, rounds, reports_once}

granted_within_window_example : length (prune 60 50 (granted 60 2 [] (1 ∷ 20 ∷ 30 ∷ 40 ∷ []))) ≤ 2
granted_within_window_example =
    granted_within_window 60 2 (1 ∷ 20 ∷ 30 ∷ 40 ∷ []) 50
      (omega arith, (omega arith, (omega arith, (omega arith, omega arith))))

-- Two requests learn that the symbol version is invalid, and another one after the reload.
reports_once_example :
    rounds true []
      ((0x711 ∷ 0 ∷ 0x711 ∷ []) ∷ (0 ∷ []) ∷ (0x711 ∷ []) ∷ [])
      (record { marks = []; reload_in_progress = false })
    ≡ callback ∷ reload ∷ callback ∷ reload ∷ []
unfolding one_each any_stale detect_stale_cache
reports_once_example =
    reports_once true [] ((0x711 ∷ 0 ∷ 0x711 ∷ []) ∷ (0 ∷ []) ∷ (0x711 ∷ []) ∷ [])
      (record { marks = []; reload_in_progress = false }) refl

-- A timeout below zero is not taken; five and a half seconds of silence are three cycles of two.
abbrev options : List SessionOption
options = with_request_timeout (negsuc 0) ∷ with_notification_silence_timeout (pos 5500000000) ∷ []

configured-Valid_example :
    Valid (configured options)
    × (((configured options).heartbeat_silence
          ≤ (configured options).heartbeat_missed
            * heartbeat_cycle (pos (configured options).heartbeat_interval))
        ⊎ (2 ^ 63
            < (configured options).heartbeat_silence
              + heartbeat_cycle (pos (configured options).heartbeat_interval)))
configured-Valid_example = configured-Valid options
