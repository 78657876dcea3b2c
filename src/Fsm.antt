-- ===== src/Fsm.antt =====
-- session_fsm.go: the states of a session, the table of transitions and the two ways to take one.
-- A method that changes `sessionFSM` under its mutex returns the new record with its `ok`; the
-- prior state that it also returns is the `value` of the record it was given.
pub mod Transitions
pub mod Runs
pub mod Winners
mod Scenarios
use go_ads.Common.{ℕ, ◌+◌, ◌%◌, ◌^◌, Bool, true, false, List, [], ◌∷◌, ◌==◌, if◌then◌else◌}

pub data SessionState : Type 0 where
  constructed connecting connected reloading disconnected reconnecting closed : SessionState

-- The `uint32` that stands for the state.
abbrev pub code : SessionState → ℕ
code constructed = 0
code connecting = 1
code connected = 2
code reloading = 3
code disconnected = 4
code reconnecting = 5
code closed = 6

-- `allowedTransitions`: whether the map under the first state has the second.
abbrev pub allowed : SessionState → SessionState → Bool
allowed constructed connecting = true
allowed constructed closed = true
allowed connecting connected = true
allowed connecting reconnecting = true
allowed connecting disconnected = true
allowed connecting closed = true
allowed connected reloading = true
allowed connected disconnected = true
allowed connected reconnecting = true
allowed connected closed = true
allowed reloading connected = true
allowed reloading disconnected = true
allowed reloading closed = true
allowed disconnected reconnecting = true
allowed disconnected connecting = true
allowed disconnected closed = true
allowed reconnecting connected = true
allowed reconnecting reconnecting = true
allowed reconnecting closed = true
allowed _ _ = false

pub record SessionFsm : Type 0 where
  pub value : SessionState
  pub epoch : ℕ  -- uint64

-- `epoch.Add(1)`
pub bump_epoch : SessionFsm → SessionFsm
bump_epoch s = record s { epoch = (s.epoch + 1) % 2 ^ 64 }

-- The store of the new state, and the bump on entry into Connected.
store : SessionFsm → SessionState → SessionFsm
unfolding bump_epoch
store s want =
    let t = record s { value = want } in if code want == code connected then bump_epoch t else t

pub transition_to : SessionFsm → SessionState → SessionFsm × Bool
unfolding store
transition_to s want =
    if code s.value == code want
    then (s, true)
    else if allowed s.value want
    then (store s want, true)
    else (s, false)

pub transition_to_once : SessionFsm → SessionState → SessionFsm × Bool
unfolding store
transition_to_once s want =
    if code s.value == code want
    then (s, false)
    else if allowed s.value want
    then (store s want, true)
    else (s, false)

pub is_closed : SessionFsm → Bool
is_closed s = code s.value == code closed

pub is_disconnected : SessionFsm → Bool
is_disconnected s =
    if code s.value == code disconnected then true else code s.value == code reconnecting

pub is_reconnecting : SessionFsm → Bool
is_reconnecting s = code s.value == code reconnecting

-- What goroutines ask of the machine. The mutex makes any number of them one sequence.
pub data Call : Type 0 where
  to : SessionState → Call
  once : SessionState → Call
  bump : Call

unfoldable pub step : SessionFsm → Call → SessionFsm × Bool
unfolding transition_to transition_to_once bump_epoch
step s (to want) = transition_to s want
step s (once want) = transition_to_once s want
step s bump = (bump_epoch s, true)

unfoldable pub run : SessionFsm → List Call → SessionFsm
run s [] = s
run s (c ∷ cs) = run (step s c).0 cs

unfoldable pub new : SessionFsm
new = record { value = constructed; epoch = 0 }
