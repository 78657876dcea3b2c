-- ===== src/Session/Stale.antt =====
-- Stale marks and what an error says of the PLC: `markSymbolStale`,
-- `consumeStaleFlag`, `markAllHandlesStale`, the strategies of `handleStaleDetection`,
-- `isDeviceAnswer`, `runtimeDefinitelyNotServing`, `requireRunningRuntime` and
-- `filterValidPending` of session.go.
use go_ads.Common.{
  ℕ, ◌≡◌, refl, Bool, true, false, ◌||◌, not, Option, none, some, List, [], ◌∷◌, Bytes, ◌==◌, ltb,
  if◌then◌else◌, inl, inr, ◌++◌, append-nil, Option-cases, Fault, device, router,
}
use go_ads.Common.Dict.{
  Dict, ℕ-Key, Bytes-Key, lookup, has, insert, erase, lookup-insert_self, lookup-erase_self,
}
use go_ads.Defs.{Reason, detect_stale_cache}
use go_ads.Subscriptions.{Pending, Active, handles}

unfoldable pub mark_symbol_stale : ℕ → Reason → Dict ℕ Reason → Dict ℕ Reason
mark_symbol_stale handle reason marks = insert handle reason marks

unfoldable pub consume_stale_flag : ℕ → Dict ℕ Reason → Option Reason × Dict ℕ Reason
consume_stale_flag handle marks = elim (lookup handle marks) [
  | none ↦ (none, marks)
  | some reason ↦ (some reason, erase handle marks)
]

unfoldable pub mark_handles : List ℕ → Reason → Dict ℕ Reason → Dict ℕ Reason
mark_handles [] reason marks = marks
mark_handles (h ∷ hs) reason marks = mark_handles hs reason (mark_symbol_stale h reason marks)

unfoldable pub mark_all_handles_stale : Dict ℕ Active → Reason → Dict ℕ Reason → Dict ℕ Reason
mark_all_handles_stale active reason marks = mark_handles (handles active) reason marks

pub data Strategy : Type 0 where
  ignores closes auto_reloads : Strategy

pub record Detector : Type 0 where
  pub marks : Dict ℕ Reason
  pub reload_in_progress : Bool

-- The goroutines that a detection starts.
pub data Started : Type 0 where
  callback close reload : Started

abbrev called : Bool → List Started → List Started
called has_callback rest = if has_callback then callback ∷ rest else rest

unfoldable pub handle_stale_detection :
    Strategy → Bool → Dict ℕ Active → ℕ → Detector → (Option Reason × List Started) × Detector
handle_stale_detection strategy has_callback active rc d = elim (detect_stale_cache rc) [
  | none ↦ ((none, []), d)
  | some reason ↦ elim strategy [
    | ignores ↦ (
      (some reason, called has_callback []),
      record d { marks = mark_all_handles_stale active reason d.marks },
    )
    | closes ↦ ((some reason, called has_callback (close ∷ [])), d)
    | auto_reloads ↦ if d.reload_in_progress then ((some reason, []), d) else (
      (some reason, called has_callback (reload ∷ [])),
      record d { reload_in_progress = true },
    )
  ]
]

-- A mark is delivered with one sample: the next one has none, until it is set again.
consume_stale_flag_once :
    (handle : ℕ) (reason : Reason) (marks : Dict ℕ Reason)
    → ((consume_stale_flag handle (mark_symbol_stale handle reason marks)).0 ≡ some reason)
      × ((consume_stale_flag handle
            (consume_stale_flag handle (mark_symbol_stale handle reason marks)).1).0
          ≡ none)
unfolding consume_stale_flag mark_symbol_stale
consume_stale_flag_once handle reason marks =
    let p = lookup-insert_self handle reason marks in
    rw (consume_stale_flag, p, lookup-erase_self handle (insert handle reason marks)) (refl, refl)

-- What is started by the codes that several requests report, one after the other, as long as no
-- reload comes to its end.
unfoldable pub reports : Bool → Dict ℕ Active → List ℕ → Detector → List Started × Detector
reports has_callback active [] d = ([], d)
reports has_callback active (rc ∷ rcs) d =
    let ((_, started), d') = handle_stale_detection auto_reloads has_callback active rc d in
    let (more, d'') = reports has_callback active rcs d' in (started ++ more, d'')

unfoldable pub any_stale : List ℕ → Bool
any_stale [] = false
any_stale (rc ∷ rcs) = elim (detect_stale_cache rc) [ none ↦ any_stale rcs | some _ ↦ true ]

-- While a reload is in progress a code starts nothing and changes nothing.
busy :
    (has_callback : Bool) (active : Dict ℕ Active) (rc : ℕ) (d : Detector)
    → d.reload_in_progress ≡ true
    → ((handle_stale_detection auto_reloads has_callback active rc d).0.1 ≡ [])
      × ((handle_stale_detection auto_reloads has_callback active rc d).1 ≡ d)
unfolding handle_stale_detection
busy has_callback active rc d h = elim (Option-cases (detect_stale_cache rc)) [
  | inl e ↦ rw (handle_stale_detection, e) (refl, refl)
  | inr (reason, e) ↦ rw (handle_stale_detection, e, h) (refl, refl)
]

reports_busy :
    (has_callback : Bool) (active : Dict ℕ Active) (rcs : List ℕ) (d : Detector)
    → d.reload_in_progress ≡ true
    → (reports has_callback active rcs d).0 ≡ []
unfolding reports
reports_busy has_callback active [] d h = refl
reports_busy has_callback active (rc ∷ rcs) d h =
    let (p, q) = busy has_callback active rc d h in
    rw (p, q) (reports_busy has_callback active rcs d h)

-- Of the codes up to the end of a reload, a stale one starts a reload, and no second one.
reports_idle :
    (has_callback : Bool) (active : Dict ℕ Active) (rcs : List ℕ) (d : Detector)
    → d.reload_in_progress ≡ false
    → (reports has_callback active rcs d).0
      ≡ (if any_stale rcs then called has_callback (reload ∷ []) else [])
unfolding reports any_stale handle_stale_detection
reports_idle has_callback active [] d h = refl
reports_idle has_callback active (rc ∷ rcs) d h = elim (Option-cases (detect_stale_cache rc)) [
  | inl e ↦ rw (any_stale, handle_stale_detection, e) (reports_idle has_callback active rcs d h)
  | inr (reason, e) ↦
      rw
        (
          any_stale,
          handle_stale_detection,
          e,
          h,
          reports_busy has_callback active rcs (record d { reload_in_progress = true }) refl,
        )
        (append-nil (called has_callback (reload ∷ [])))
]

-- The reload has come to its end, whether it succeeded or not.
abbrev pub end_reload : Detector → Detector
end_reload d = record d { reload_in_progress = false }

-- What is started by rounds of codes: a reload ends after each round, if there is one.
unfoldable pub rounds : Bool → Dict ℕ Active → List (List ℕ) → Detector → List Started
rounds has_callback active [] d = []
rounds has_callback active (rcs ∷ rest) d =
    let (started, d') = reports has_callback active rcs d in
    started ++ rounds has_callback active rest (end_reload d')

-- A reload for each round that has a stale code.
unfoldable pub one_each : Bool → List (List ℕ) → List Started
one_each has_callback [] = []
one_each has_callback (rcs ∷ rest) =
    (if any_stale rcs then called has_callback (reload ∷ []) else []) ++ one_each has_callback rest

-- Where the strategy is to reload and no reload is in progress, of the codes that come before a
-- reload ends, between two ends and after the last, each time a reload is started, and the callback
-- before it if there is one, just if one of them is a stale one, and never a second one.
pub reports_once :
    (has_callback : Bool) (active : Dict ℕ Active) (codes : List (List ℕ)) (d : Detector)
    → d.reload_in_progress ≡ false
    → rounds has_callback active codes d ≡ one_each has_callback codes
unfolding rounds one_each
reports_once has_callback active [] d h = refl
reports_once has_callback active (rcs ∷ rest) d h =
    rw
      (
        reports_idle has_callback active rcs d h,
        reports_once has_callback active rest (end_reload (reports has_callback active rcs d).1)
            refl,
      )
      refl

-- `errors.As` for a ReturnCode or an AMSError
unfoldable pub is_device_answer : Fault → Bool
is_device_answer (device _) = true
is_device_answer (router _) = true
is_device_answer _ = false

abbrev ads_state_config : ℕ
ads_state_config = 15

abbrev ads_state_reconfig : ℕ
ads_state_reconfig = 16

unfoldable pub runtime_definitely_not_serving : ℕ → Bool
runtime_definitely_not_serving state = state == ads_state_config || state == ads_state_reconfig

abbrev runtime_state_ttl : ℕ
runtime_state_ttl = 30000000000

-- knownRuntimeState, with the time since the reading, if it has one: none where nothing is known.
unfoldable pub known_runtime_state : ℕ → Option ℕ → Option ℕ
known_runtime_state state since = if state == 0 then none else elim since [
  | none ↦ some state
  | some age ↦ if ltb runtime_state_ttl age then none else some state
]

-- True for no error.
unfoldable pub require_running_runtime : ℕ → Option ℕ → Bool
require_running_runtime state since = elim (known_runtime_state state since) [
  | none ↦ true
  | some s ↦ not (runtime_definitely_not_serving s)
]

unfoldable pub filter_valid_pending :
    {V : Type 0} → (Bytes → Bytes) → Dict Bytes V → Dict Bytes Bool → List Pending → List Pending
filter_valid_pending symbol_key symbols on_demand [] = []
filter_valid_pending symbol_key symbols on_demand (p ∷ ps) =
    let rest = filter_valid_pending symbol_key symbols on_demand ps in
    let key = symbol_key p.config.symbol_name in
    if has key symbols then p ∷ rest else if has key on_demand then p ∷ rest else rest
