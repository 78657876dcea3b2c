-- ===== src/Session/Resubscribe.antt =====
-- `resubscribeNotificationsLocked` of session.go and `recoverDeadSubscriptions` of
-- cmd_notification.go: the subscriptions on file are registered again, by the batch of
-- AddSymbolNotifications. What the PLC answers and what others do meanwhile is in `Attempt`. The
-- heartbeat, the clocks and the logging are left out.
pub mod Laws
pub mod Intent
mod Samples
use go_ads.Common.{
  ℕ, ◌+◌, ◌-◌, Bool, true, false, ◌&&◌, not, Option, none, some, List, [], ◌∷◌, ◌++◌, Bytes, length,
  ltb, leb, ◌==◌, if◌then◌else◌,
}
use go_ads.Common.Dict.{Dict, ℕ-Key, has}
use go_ads.Subscriptions.{
  Config, Pending, Active, Manager, set_pending, reset_configs, restore_configs,
  lower_registered_to, raise_registered, take_notification_handles, handles,
}
use go_ads.Subscriptions.Delete.{sum_delete_device_notification}
use go_ads.Subscriptions.Batch.{Slot, BatchFault, not_running, Around, add_symbol_notifications}
use go_ads.Session.Stale.{filter_valid_pending}

abbrev pub resubscribe_max_attempts : ℕ
resubscribe_max_attempts = 3

-- The world of an attempt: the symbol cache, the batch, and the codes that the PLC answers to the
-- deletions.
pub record Attempt : Type 0 where
  pub symbols : Dict Bytes Bytes
  pub on_demand : Dict Bytes Bool
  pub around : Around
  pub orphan_codes : List ℕ
  pub rollback_codes : List ℕ

-- What is made of the results: the handles to release, the entries to try again, and the number of
-- those that are given up.
pub record Sorted : Type 0 where
  pub orphan_handles : List ℕ
  pub retry_entries : List Pending
  pub dropped : ℕ

unfoldable pub sort_slot : Slot → Pending → Sorted → Sorted
sort_slot s p rest =
    let next : Pending = record p { resubscribe_attempts = p.resubscribe_attempts + 1 } in
    elim s.skipped [
      | none ↦ rest
      | some _ ↦ record {
        orphan_handles =
            if not (s.handle == 0) then s.handle ∷ rest.orphan_handles else rest.orphan_handles;
        retry_entries =
            if leb resubscribe_max_attempts next.resubscribe_attempts
            then rest.retry_entries
            else next ∷ rest.retry_entries;
        dropped =
            if leb resubscribe_max_attempts next.resubscribe_attempts
            then rest.dropped + 1
            else rest.dropped;
      }
    ]

-- A result beyond the entries has its handle released.
unfoldable pub sort_results : List Slot → List Pending → Sorted
sort_results [] ps = record { orphan_handles = []; retry_entries = []; dropped = 0 }
sort_results (s ∷ ss) [] =
    let rest = sort_results ss [] in
    elim s.skipped [
      | none ↦ rest
      | some _ ↦
          if not (s.handle == 0)
          then record rest { orphan_handles = s.handle ∷ rest.orphan_handles }
          else rest
    ]
sort_results (s ∷ ss) (p ∷ ps) = sort_slot s p (sort_results ss ps)

abbrev pub configs_of : List Pending → List Config
configs_of [] = []
configs_of (p ∷ ps) = p.config ∷ configs_of ps

-- The entries that were there before, and the handles of the others.
unfoldable pub roll_back : Dict ℕ Active → Dict ℕ Active → Dict ℕ Active × List ℕ
roll_back before [] = ([], [])
roll_back before ((h, a) ∷ d) =
    let (kept, new) = roll_back before d in
    if has h before then ((h, a) ∷ kept, new) else (kept, h ∷ new)

pub data Recovery : Type 0 where
  done failed deferred : Recovery

module _ (symbol_key : Bytes → Bytes) where
  unfoldable pub requeue : List Pending → Manager → Manager
  requeue [] m = m
  requeue (p ∷ ps) m = requeue ps (set_pending symbol_key p m)

  unfoldable pub restore_intent : List Pending → Option ℕ → Manager → Manager
  restore_intent ps channel m =
      let merged = restore_configs symbol_key ps m in
      record merged { channel = elim merged.channel [ none ↦ channel | some c ↦ some c ] }

module _ (symbol_key : Bytes → Bytes) (equal_fold : Bytes → Bytes → Bool) where
  abbrev release : List ℕ → List ℕ → Manager → Manager
  release hs codes m = sum_delete_device_notification symbol_key equal_fold false hs codes m

  -- What follows a batch that has ended without an error, or with one.
  unfoldable pub after_batch : Attempt → List Slot → List Pending → Manager → Manager
  after_batch a results valid m =
      let sorted = sort_results results valid in
      let queued =
        requeue symbol_key sorted.retry_entries (release sorted.orphan_handles a.orphan_codes m) in
      if ltb 0 sorted.dropped
      then lower_registered_to (length valid - sorted.dropped) queued
      else queued

  unfoldable pub undo : Attempt → Manager → Manager → Manager
  undo a before m =
      let (kept, new) = roll_back before.active m.active in
      release new a.rollback_codes
        (record (reset_configs symbol_key before.pending (record m { active = kept })) {
          channel = before.channel;
        })

  unfoldable pub attempt_batch :
      Attempt → ℕ → List Pending → Manager → Manager → Option BatchFault × Manager
  attempt_batch a channel valid before m =
      let b =
        add_symbol_notifications symbol_key equal_fold a.around channel (configs_of valid) m in
      let later = after_batch a b.results valid b.manager in
      elim b.fault [ none ↦ (none, later) | some f ↦ (some f, undo a before later) ]

  unfoldable pub resubscribe_notifications : Attempt → Manager → Option BatchFault × Manager
  resubscribe_notifications a m =
      let valid = filter_valid_pending symbol_key a.symbols a.on_demand m.pending in
      let cleared = reset_configs symbol_key [] m in
      let lowered =
        if ltb (length valid) (length m.pending)
        then lower_registered_to (length valid) cleared
        else cleared in
      if length m.pending == 0 then (none, m) else (elim m.channel [
        | none ↦ (none, m)
        | some channel ↦
            if length valid == 0
            then (none, lower_registered_to 0 (record cleared { channel = none }))
            else attempt_batch a channel valid m lowered
      ])

  -- `not_serving` tells that the runtime is known not to serve.
  unfoldable pub recover_dead_subscriptions :
      Bool → Bool → List ℕ → Attempt → Manager → Recovery × Manager
  recover_dead_subscriptions is_closed not_serving stale_codes a m =
      let (stale, taken) = take_notification_handles m in
      let released = release stale stale_codes taken in
      let (fault, m') = resubscribe_notifications a released in
      let restored = restore_intent symbol_key released.pending released.channel m' in
      if is_closed then (failed, m) else if not_serving then (deferred, m) else (elim fault [
        | some not_running ↦ (deferred, restored)
        | some _ ↦ (failed, restored)
        | none ↦
            if length m'.active == 0 && ltb 0 (length released.pending)
            then (failed, restored)
            else (done, raise_registered m')
      ])
