-- ===== src/Subscriptions/Orphans.antt =====
-- The deletion of handles that this session does not own: `orphanDeleteAbortReason` and
-- `tryOrphanDelete` of cmd_notification.go. It and the goroutines that it starts are sequences of
-- the critical sections of `orphanMu` and the operations on `orphanSem`, which are `Call`, and
-- between which those of others come. The time, in nanoseconds, is an argument.
use go_ads.Common.{
  ℕ, ◌+◌, ◌≤◌, ◌<◌, ◌≡◌, Bool, true, false, ◌||◌, none, some, List, [], ◌∷◌, length, ltb, leb, ◌==◌,
  if◌then◌else◌,
}
use go_ads.Common.Dict.{Dict, ℕ-Key, lookup, has, insert, erase}
use go_ads.Subscriptions.{Manager}

abbrev pub orphan_delete_throttle : ℕ
orphan_delete_throttle = 60000000000

abbrev pub orphan_delete_max_concurrency : ℕ
orphan_delete_max_concurrency = 10

abbrev pub orphan_delete_seen_max_age : ℕ
orphan_delete_seen_max_age = 300000000000

-- Whether a delete that was scheduled must not be sent.
unfoldable pub orphan_delete_abort_reason : ℕ → ℕ → Manager → Bool
orphan_delete_abort_reason handle subscribe_in_flight m =
    has handle m.active || ltb 0 subscribe_in_flight

-- `orphanSeen`, and the handles for which `orphanSem` is held.
pub record Orphans : Type 0 where
  pub seen : Dict ℕ ℕ
  pub running : List ℕ

unfoldable pub expire : ℕ → Dict ℕ ℕ → Dict ℕ ℕ
expire now [] = []
expire now ((h, t) ∷ d) =
    let rest = expire now d in
    if ltb (t + orphan_delete_seen_max_age) now then rest else (h, t) ∷ rest

unfoldable pub is_throttled : ℕ → ℕ → Dict ℕ ℕ → Bool
is_throttled now handle seen = elim (lookup handle seen) [
  | none ↦ false
  | some last ↦ ltb now (last + orphan_delete_throttle)
]

unfoldable pub free_slot : ℕ → List ℕ → List ℕ
free_slot handle [] = []
free_slot handle (h ∷ hs) = let rest = free_slot handle hs in if h == handle then hs else h ∷ rest

-- Expiry at a check, the acquisition of a slot where one is free, the record of an attempt, the
-- removal of the record by a delete that is given up, and the release of the slot.
pub data Call : Type 0 where
  expires : ℕ → Call
  takes : ℕ → Call
  records : ℕ → ℕ → Call
  forgets frees : ℕ → Call

unfoldable pub all_taken : Orphans → Bool
all_taken o = leb orphan_delete_max_concurrency (length o.running)

unfoldable pub step : Orphans → Call → Orphans
unfolding all_taken
step o (expires now) = record o { seen = expire now o.seen }
step o (takes handle) = if all_taken o then o else record o { running = handle ∷ o.running }
step o (records handle now) = record o { seen = insert handle now o.seen }
step o (forgets handle) = record o { seen = erase handle o.seen }
step o (frees handle) = record o { running = free_slot handle o.running }

unfoldable pub run : Orphans → List Call → Orphans
unfolding step
run o [] = o
run o (c ∷ cs) = run (step o c) cs

-- What others do after the check, after the slot was taken, after the attempt was recorded, and
-- after the slot was freed where no goroutine was started.
pub record Others : Type 0 where
  pub checked : List Call
  pub taken : List Call
  pub recorded : List Call
  pub slot_freed : List Call

-- Whether a delete was scheduled. `guarded` tells that the session is closed or reconnecting,
-- `started` that the goroutine was started.
unfoldable pub try_orphan_delete : Bool → ℕ → ℕ → Bool → Others → Orphans → Bool × Orphans
try_orphan_delete guarded now handle started others o =
    let kept = step o (expires now) in
    let waited = run kept others.checked in
    let reserved = run (step waited (takes handle)) others.taken in
    let tracked = run (step reserved (records handle now)) others.recorded in
    let given_up = step (run (step tracked (frees handle)) others.slot_freed) (forgets handle) in
    if guarded
    then (false, o)
    else if is_throttled now handle kept.seen
    then (false, kept)
    else if all_taken waited
    then (false, waited)
    else if started
    then (true, tracked)
    else (false, given_up)

abbrev pub idle : Orphans
idle = record { seen = []; running = [] }

-- A check of any handle is before `t` and a minute; a record of the handle is not older than `t`;
-- and no delete of the handle is given up.
abbrev pub Quiet : ℕ → ℕ → Call → Type 0
Quiet handle t (expires now) = now < t + orphan_delete_throttle
Quiet handle t (takes h) = Unit {0}
Quiet handle t (records h now) = (handle == h) ≡ true → t ≤ now
Quiet handle t (forgets h) = (handle == h) ≡ false
Quiet handle t (frees h) = Unit {0}

-- An attempt for the handle at `t` or later is recorded.
abbrev Recorded : ℕ → ℕ → Orphans → Type 0
Recorded h t o = (s : ℕ) × (lookup h o.seen ≡ some s) × (t ≤ s)
