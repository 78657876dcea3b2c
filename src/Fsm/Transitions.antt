-- ===== src/Fsm/Transitions.antt =====
-- What one transition of session_fsm.go does, over all pairs of states.
use go_ads.Common.{
  ◌+◌, ◌%◌, ◌^◌, ◌≡◌, ◌≢◌, ◌⊎◌, Bool, true, false, arith, ◌==◌, if◌then◌else◌, ◌&&◌, not,
}
use go_ads.Fsm.{
  SessionState, connected, code, allowed, SessionFsm, transition_to, transition_to_once,
}

-- Whether a change of state comes into Connected from another state.
abbrev pub enters_connected : SessionState → SessionState → Bool
enters_connected from want = code want == code connected && not (code from == code connected)

-- A transition succeeds exactly when it stays in its state or follows the table, and it then
-- leaves the machine in the wanted state with the epoch bumped just when it enters Connected from
-- another state; otherwise it is refused and the machine is as it was.
pub transition_to_lem :
    (s : SessionFsm) (want : SessionState)
    → let (t, done) = transition_to s want in
      ((done ≡ true)
        × ((s.value ≡ want) ⊎ (allowed s.value want ≡ true))
        × (t.value ≡ want)
        × (t.epoch ≡ (if enters_connected s.value want then (s.epoch + 1) % 2 ^ 64 else s.epoch)))
      ⊎ ((done ≡ false) × (s.value ≢ want) × (allowed s.value want ≡ false) × (t ≡ s))
unfolding transition_to
transition_to_lem s want = ground arith

-- `transition_to_once` refuses to stay where the machine is, and is `transition_to` otherwise.
pub transition_to_once_lem :
    (s : SessionFsm) (want : SessionState)
    → ((s.value ≡ want) × (transition_to_once s want ≡ (s, false)))
      ⊎ ((s.value ≢ want) × (transition_to_once s want ≡ transition_to s want))
unfolding transition_to transition_to_once
transition_to_once_lem s want = ground arith
