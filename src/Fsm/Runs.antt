-- ===== src/Fsm/Runs.antt =====
-- What holds over any sequence of calls on the machine of session_fsm.go.
use go_ads.Common.{
  ℕ, ◌+◌, ◌%◌, ◌^◌, ◌≤◌, ◌<◌, ◌≡◌, ◌≢◌, Bool, true, List, [], ◌∷◌, arith, length, if◌then◌else◌,
  IsU64,
}
use go_ads.Fsm.{
  SessionState, connecting, connected, reloading, disconnected, reconnecting, constructed, closed,
  SessionFsm, Call, to, once, bump, step, run,
}
use go_ads.Fsm.Transitions.{enters_connected}

-- Whether a call is an event that the epoch counts: a bump, or an entry into Connected.
abbrev pub is_generation : SessionState → Call → SessionState → Bool
is_generation from bump after = true
is_generation from (to want) after = enters_connected from after
is_generation from (once want) after = enters_connected from after

-- How many such events a sequence of calls holds.
unfoldable pub generations : SessionFsm → List Call → ℕ
generations s [] = 0
generations s (c ∷ cs) =
    let t = (step s c).0 in (if is_generation s.value c t.value then 1 else 0) + generations t cs

epoch-step :
    (s : SessionFsm) (c : Call)
    → IsU64 s.epoch
    → (step s c).0.epoch
      ≡ (s.epoch + (if is_generation s.value c (step s c).0.value then 1 else 0)) % 2 ^ 64
unfolding step
epoch-step s c h = ground arith

-- Over any sequence of calls the epoch advances by the number of entries into Connected and of
-- bumps, modulo the width of its counter.
pub epoch-run :
    (s : SessionFsm) (cs : List Call)
    → IsU64 s.epoch
    → (run s cs).epoch ≡ (s.epoch + generations s cs) % 2 ^ 64
unfolding run generations
epoch-run s [] h = omega arith
epoch-run s (c ∷ cs) h =
    let e = epoch-step s c h in omega (arith, e, epoch-run (step s c).0 cs (omega (arith, e)))

generations-le : (s : SessionFsm) (cs : List Call) → generations s cs ≤ length cs
unfolding generations
generations-le s [] = omega arith
generations-le s (c ∷ cs) = ground (arith, generations-le (step s c).0 cs)

-- A caller that finds the epoch as it captured it knows that no reconnect completed and no cache
-- was swapped in between, as long as fewer than 2 ^ 64 calls were made.
pub epoch_unchanged :
    (s : SessionFsm) (cs : List Call)
    → IsU64 s.epoch
    → length cs < 2 ^ 64
    → (run s cs).epoch ≡ s.epoch
    → generations s cs ≡ 0
epoch_unchanged s cs h l e = omega (arith, epoch-run s cs h, generations-le s cs)

step-closed : (s : SessionFsm) (c : Call) → s.value ≡ closed → (step s c).0.value ≡ closed
unfolding step
step-closed s c h = ground arith

-- Closed is terminal: no sequence of calls leaves it.
pub run-closed : (s : SessionFsm) (cs : List Call) → s.value ≡ closed → (run s cs).value ≡ closed
unfolding run
run-closed s [] h = h
run-closed s (c ∷ cs) h = run-closed (step s c).0 cs (step-closed s c h)

step-ne-constructed :
    (s : SessionFsm) (c : Call) → s.value ≢ constructed → (step s c).0.value ≢ constructed
unfolding step
step-ne-constructed s c h = ground arith

-- No sequence of calls comes back to Constructed.
pub run-ne-constructed :
    (s : SessionFsm) (cs : List Call) → s.value ≢ constructed → (run s cs).value ≢ constructed
unfolding run
run-ne-constructed s [] h = h
run-ne-constructed s (c ∷ cs) h = run-ne-constructed (step s c).0 cs (step-ne-constructed s c h)

-- The calls that bring a machine to Connected.
abbrev recovery : SessionState → List Call
recovery constructed = to connecting ∷ to connected ∷ []
recovery connecting = to connected ∷ []
recovery connected = []
recovery reloading = to connected ∷ []
recovery disconnected = once reconnecting ∷ to connected ∷ []
recovery reconnecting = to connected ∷ []
recovery closed = []

recovery_lem :
    (s : SessionFsm)
    → s.value ≢ closed
    → (length (recovery s.value) ≤ 2) × ((run s (recovery s.value)).value ≡ connected)
unfolding run step
recovery_lem s h = ground arith

-- From every state but Closed there are at most two transitions to Connected.
run_recovers :
    (s : SessionFsm)
    → s.value ≢ closed
    → (cs : List Call) × (length cs ≤ 2) × ((run s cs).value ≡ connected)
run_recovers s h = (recovery s.value, (recovery_lem s h).0, (recovery_lem s h).1)
