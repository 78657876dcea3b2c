-- ===== src/Fsm/Winners.antt =====
-- `transitionToOnce` of session_fsm.go among several callers. Connecting and reconnecting look at
-- the answer; Close and giveUpReconnecting do not, since the shutdown itself is done once.
use go_ads.Common.{
  ℕ, zero, suc, ◌+◌, ◌<◌, ◌≡◌, ◌≢◌, refl, Bool, true, false, List, [], ◌∷◌, arith, ◌==◌,
  if◌then◌else◌, ◌&&◌, replicate, All,
}
use go_ads.Fsm.{SessionState, closed, code, allowed, SessionFsm, Call, to, once, bump, step}

abbrev pub is_once : SessionState → Call → Bool
is_once want (once w) = code w == code want
is_once want (to w) = false
is_once want bump = false

-- How many callers of `transitionToOnce(want)` are told that they were the first.
unfoldable pub winners : SessionState → SessionFsm → List Call → ℕ
winners want s [] = 0
winners want s (c ∷ cs) =
    (if is_once want c && (step s c).1 then 1 else 0) + winners want (step s c).0 cs

-- Callers that find the machine where they want it do not win.
no_winner_after :
    (n : ℕ) (want : SessionState) (s : SessionFsm)
    → s.value ≡ want
    → winners want s (replicate n (once want)) ≡ 0
unfolding winners step
no_winner_after zero want s h = refl
no_winner_after (suc n) want s h = ground (arith, no_winner_after n want s h)

-- Of any number of concurrent callers that want one state, which the table allows, just one wins.
pub one_winner :
    (n : ℕ) (want : SessionState) (s : SessionFsm)
    → s.value ≢ want
    → allowed s.value want ≡ true
    → winners want s (replicate (suc n) (once want)) ≡ 1
unfolding winners step
one_winner n want s h a = ground (arith, no_winner_after n want (step s (once want)).0)

closed_no_winner : (s : SessionFsm) (cs : List Call) → s.value ≡ closed → winners closed s cs ≡ 0
unfolding winners step
closed_no_winner s [] h = refl
closed_no_winner s (c ∷ cs) h = ground (arith, closed_no_winner (step s c).0 cs)

-- A call that others may make while a session is being closed: anything but a plain transition to
-- Closed.
abbrev pub IsOther : Call → Type 0
IsOther c = c ≢ to closed

abbrev pub closers : List Call → ℕ
closers [] = 0
closers (c ∷ cs) = (if is_once closed c then 1 else 0) + closers cs

-- From a state other than Closed, of any callers of `transitionToOnce` that want Closed, one at
-- least, exactly one is told that it was the first, however other calls interleave, plain
-- transitions to Closed excepted.
pub one_closer :
    (s : SessionFsm) (cs : List Call)
    → s.value ≢ closed
    → All IsOther cs
    → 0 < closers cs
    → winners closed s cs ≡ 1
unfolding winners step
one_closer s [] h o p = absurd (omega arith)
one_closer s (c ∷ cs) h (o, os) p =
    ground (arith, closed_no_winner (step s c).0 cs, one_closer (step s c).0 cs)
