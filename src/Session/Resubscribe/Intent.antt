-- ===== src/Session/Resubscribe/Intent.antt =====
-- What the recovery of dead subscriptions leaves on file.
use go_ads.Common.{
  ℕ, ◌≡◌, ◌≢◌, refl, ap, ◌∙◌, Bool, true, false, ◌&&◌, Option, none, some, inl, inr, All, List, [],
  not, leb, ◌+◌, sym, ◌∷◌, Bytes, length, ltb, ◌==◌, ◌-◌, ◌⊎◌, if◌then◌else◌, if-both, Option-both,
}
use mathlib.Core.Path.{subst}
use go_ads.Common.Dict.{Dict, Bytes-Key, ℕ-Key, eq_text, has, eq_text_refl, IsDict}
use go_ads.Subscriptions.{
  Active, Manager, Pending, key_of, has_config, lower_registered_to, raise_registered,
  reset_configs, restore_configs, take_notification_handles,
}
use go_ads.Subscriptions.Lockstep.{intent, Lockstep, set_pending_lem}
use go_ads.Subscriptions.Configs.{reset_configs-Lockstep, restore_configs_lem}
use go_ads.Subscriptions.Batch.{
  Slot, BatchFault, not_running, channel_mismatched, disconnected, batch_aborted,
  add_symbol_notifications,
}
use go_ads.Subscriptions.Batch.Keeps
use go_ads.Subscriptions.Batch.Keeps.{
  Filed, same_configs, sum_delete-Filed, add_symbol_notifications-Filed,
}
use go_ads.Subscriptions.Plain.{IsAscii, PlainEntry, PlainConfig, Plain, Folds, set_pending-Plain}
use go_ads.Session.Stale.{filter_valid_pending}
use go_ads.Session.Resubscribe.{
  Attempt, Sorted, sort_slot, resubscribe_max_attempts, Recovery, done, failed, deferred, roll_back,
  release, requeue, sort_results, after_batch, undo, attempt_batch, resubscribe_notifications,
  configs_of, restore_intent, recover_dead_subscriptions,
}
use go_ads.Session.Resubscribe.Laws.{release_absent}

kept-Plain : (before d : Dict ℕ Active) → All PlainEntry d → All PlainEntry (roll_back before d).0
unfolding roll_back
kept-Plain before [] q = tt
kept-Plain before ((h, a) ∷ d) (q, qs) =
    let rest = kept-Plain before d qs in
    if-both (λ (x : Dict ℕ Active × List ℕ). All PlainEntry x.0) (has h before) (q, rest) rest

configs-Plain :
    (ps : List Pending) → All PlainConfig ps → All (λ c. IsAscii c.symbol_name) (configs_of ps)
configs-Plain [] q = tt
configs-Plain (p ∷ ps) (q, qs) = (q, configs-Plain ps qs)

-- What is tried again is among the entries that were tried.
sorted-Plain :
    (ss : List Slot) (ps : List Pending)
    → All PlainConfig ps
    → All PlainConfig (sort_results ss ps).retry_entries
unfolding sort_results sort_slot
sorted-Plain [] ps q = tt
sorted-Plain (s ∷ ss) [] q =
    let P = λ (x : Sorted). All PlainConfig x.retry_entries in
    let rest = sorted-Plain ss [] tt in
    Option-both P s.skipped rest (λ _. if-both P (not (s.handle == 0)) rest rest)
sorted-Plain (s ∷ ss) (p ∷ ps) (q, qs) =
    let rest = sorted-Plain ss ps qs in
    Option-both (λ (x : Sorted). All PlainConfig x.retry_entries) s.skipped rest
      (λ _.
        if-both (All PlainConfig) (leb resubscribe_max_attempts (p.resubscribe_attempts + 1)) rest
          (q, rest))

module _ (symbol_key : Bytes → Bytes) where
  cleared-Lockstep : (m : Manager) → Lockstep symbol_key (reset_configs symbol_key [] m)
  cleared-Lockstep m = reset_configs-Lockstep symbol_key [] m (unfold intent IsDict in tt)

  requeue-Filed :
      (ps : List Pending) (m : Manager)
      → All PlainConfig ps
      → Filed symbol_key m
      → Filed symbol_key (requeue symbol_key ps m)
  unfolding requeue
  requeue-Filed [] m q l = l
  requeue-Filed (p ∷ ps) m (q, qs) (l, k) =
      requeue-Filed ps _ qs
        ((set_pending_lem symbol_key m p l).1, set_pending-Plain symbol_key p m q k)

  lower-Filed :
      (n : ℕ) (m : Manager) → Filed symbol_key m → Filed symbol_key (lower_registered_to n m)
  unfolding lower_registered_to
  lower-Filed n m (l, k) =
      if-both (Filed symbol_key) (ltb n m.registered)
        (
          same_configs symbol_key m _ refl refl l,
          record { configs = k.configs; entries = k.entries },
        )
        (l, k)

  filter-Plain :
      {V : Type 0} (symbols : Dict Bytes V) (on_demand : Dict Bytes Bool) (ps : List Pending)
      → All PlainConfig ps
      → All PlainConfig (filter_valid_pending symbol_key symbols on_demand ps)
  unfolding filter_valid_pending
  filter-Plain symbols on_demand [] q = tt
  filter-Plain symbols on_demand (p ∷ ps) (q, qs) =
      let rest = filter-Plain symbols on_demand ps qs in
      if-both (All PlainConfig) (has (key_of symbol_key p) symbols) (q, rest)
        (if-both (All PlainConfig) (has (key_of symbol_key p) on_demand) (q, rest) rest)

  -- Every entry is among the entries by their keys.
  intent-has :
      (ps : List Pending) (d : Dict Bytes Pending)
      → ((k : Bytes) → has k (intent symbol_key ps) ≡ true → has k d ≡ true)
      → All (λ p. has (key_of symbol_key p) d ≡ true) ps
  unfolding intent has
  intent-has [] d l = tt
  intent-has (p ∷ ps) d l = (
    l (key_of symbol_key p) (rw (eq_text_refl (key_of symbol_key p)) refl),
    intent-has ps d (λ k e. l k (if-both (λ x. x ≡ true) (eq_text k (key_of symbol_key p)) refl e)),
  )

  filed :
      (ps : List Pending) (m : Manager)
      → All (λ p. has (key_of symbol_key p) (intent symbol_key m.pending) ≡ true) ps
      → Lockstep symbol_key m
      → All (λ p. has_config symbol_key p.config.symbol_name m ≡ true) ps
  unfolding has_config
  filed [] m k l = tt
  filed (p ∷ ps) m (e, k) l = (l.indexed (key_of symbol_key p) ∙ e, filed ps m k l)

  -- The entries of a manager in lockstep are on file.
  pub Lockstep-filed :
      (m : Manager)
      → Lockstep symbol_key m
      → All (λ p. has_config symbol_key p.config.symbol_name m ≡ true) m.pending
  Lockstep-filed m l =
      filed m.pending m (intent-has m.pending (intent symbol_key m.pending) (λ k e. e)) l

  module _ (equal_fold : Bytes → Bytes → Bool) (folds : Folds symbol_key equal_fold) where
    after_batch-Filed :
        (a : Attempt) (results : List Slot) (valid : List Pending) (m : Manager)
        → All PlainConfig valid
        → Filed symbol_key m
        → Filed symbol_key (after_batch symbol_key equal_fold a results valid m)
    unfolding after_batch
    after_batch-Filed a results valid m q l =
        let sorted = sort_results results valid in
        let queued = requeue-Filed sorted.retry_entries _ (sorted-Plain results valid q) (
          sum_delete-Filed symbol_key equal_fold folds false sorted.orphan_handles a.orphan_codes m
            l) in
        if-both (Filed symbol_key) (ltb 0 sorted.dropped)
          (lower-Filed (length valid - sorted.dropped) _ queued) queued

    undo-Filed :
        (a : Attempt) (before m : Manager)
        → Filed symbol_key before
        → Plain m
        → Filed symbol_key (undo symbol_key equal_fold a before m)
    unfolding undo
    undo-Filed a before m (l, k) q =
        let kept : Manager = record m { active = (roll_back before.active m.active).0 } in
        let n = reset_configs symbol_key before.pending kept in
        sum_delete-Filed symbol_key equal_fold folds false _ a.rollback_codes _ (
          same_configs symbol_key n _ refl refl
              (reset_configs-Lockstep symbol_key before.pending kept l.single),
          unfold reset_configs in
              record { configs = k.configs; entries = kept-Plain before.active m.active q.entries },
        )

    -- What others do while the batch is out keeps the two in lockstep, with names of ASCII
    -- characters, which those of the cache are too.
    abbrev pub Orderly : Attempt → Type 0
    Orderly a =
        All (Keeps.Orderly symbol_key) a.around.answers × Keeps.Keeps symbol_key a.around.later

    abbrev InStep : Option BatchFault × Manager → Type 0
    InStep x = Filed symbol_key x.1

    attempt_batch-Filed :
        (a : Attempt) (channel : ℕ) (valid : List Pending) (before m : Manager)
        → Orderly a
        → All PlainConfig valid
        → Filed symbol_key before
        → Filed symbol_key m
        → Filed symbol_key (attempt_batch symbol_key equal_fold a channel valid before m).1
    unfolding attempt_batch
    attempt_batch-Filed a channel valid before m (k, j) q lb l =
        let b =
          add_symbol_notifications symbol_key equal_fold a.around channel (configs_of valid) m in
        let later = after_batch-Filed a b.results valid b.manager q (
          add_symbol_notifications-Filed symbol_key equal_fold folds a.around channel
            (configs_of valid) m (configs-Plain valid q) k j l) in
        Option-both InStep b.fault later (λ f. undo-Filed a before _ lb later.1)

    resubscribe-Filed :
        (a : Attempt) (m : Manager)
        → Orderly a
        → Filed symbol_key m
        → Filed symbol_key (resubscribe_notifications symbol_key equal_fold a m).1
    unfolding resubscribe_notifications
    resubscribe-Filed a m o (l, k) =
        let valid = filter_valid_pending symbol_key a.symbols a.on_demand m.pending in
        let plain = filter-Plain a.symbols a.on_demand m.pending k.configs in
        let none_left : Plain (reset_configs symbol_key [] m) =
          unfold reset_configs in record { configs = tt; entries = k.entries } in
        let cleared : Filed symbol_key (reset_configs symbol_key [] m) =
          (cleared-Lockstep m, none_left) in
        let lowered =
          if-both (Filed symbol_key) (ltb (length valid) (length m.pending))
            (lower-Filed (length valid) (reset_configs symbol_key [] m) cleared) cleared in
        if-both InStep (length m.pending == 0) (l, k)
          (Option-both InStep m.channel (l, k)
            (λ channel.
              if-both InStep (length valid == 0)
                (lower-Filed 0 _ (
                  same_configs symbol_key (reset_configs symbol_key [] m) _ refl refl cleared.0,
                  record { configs = none_left.configs; entries = none_left.entries },
                ))
                (attempt_batch-Filed a channel valid m _ o plain (l, k) lowered)))

    restore-Lockstep :
        (ps : List Pending) (channel : Option ℕ) (m : Manager)
        → Lockstep symbol_key m
        → All
            (λ p.
              has_config symbol_key p.config.symbol_name (restore_intent symbol_key ps channel m)
              ≡ true)
            ps
          × Lockstep symbol_key (restore_intent symbol_key ps channel m)
    unfolding restore_intent has_config
    restore-Lockstep ps channel m l =
        let ((l', _), on_file) = restore_configs_lem symbol_key ps m l in
        (on_file, same_configs symbol_key (restore_configs symbol_key ps m) _ refl refl l')

    nothing_active : (hs : List ℕ) → All (λ h. has {V = Active} h [] ≡ false) hs
    unfolding has
    nothing_active [] = tt
    nothing_active (h ∷ hs) = (refl, nothing_active hs)

    -- The entries `ps` are on file, in lockstep.
    abbrev OnFile : List Pending → Manager → Type 0
    OnFile ps m =
        All (λ p. has_config symbol_key p.config.symbol_name m ≡ true) ps × Lockstep symbol_key m

    -- The handles of which the manager knows nothing any more are deleted without a trace.
    taken-eq :
        (codes : List ℕ) (m : Manager)
        → release symbol_key equal_fold
            (take_notification_handles m).0
            codes
            (take_notification_handles m).1
          ≡ record m { active = []; heartbeat_handle = 0 }
    unfolding take_notification_handles
    taken-eq codes m = release_absent symbol_key equal_fold _ codes _ (nothing_active _)

    -- Given up, or all is on file.
    abbrev Kept : List Pending → Recovery × Manager → Type 0
    Kept ps x = (x.0 ≡ done) ⊎ OnFile ps x.1

    judged-Kept :
        (ps : List Pending) (fault : Option BatchFault) (is_short : Bool) (restored m : Manager)
        → OnFile ps restored
        → Kept ps (elim fault as (λ _. Recovery × Manager) [
          | some not_running ↦ (deferred, restored)
          | some _ ↦ (failed, restored)
          | none ↦ if is_short then (failed, restored) else (done, m)
        ])
    judged-Kept ps none is_short restored m k = if-both (Kept ps) is_short (inr k) (inl refl)
    judged-Kept ps (some not_running) is_short restored m k = inr k
    judged-Kept ps (some channel_mismatched) is_short restored m k = inr k
    judged-Kept ps (some disconnected) is_short restored m k = inr k
    judged-Kept ps (some batch_aborted) is_short restored m k = inr k

    recover-Kept :
        (is_closed not_serving : Bool) (codes : List ℕ) (a : Attempt) (m : Manager)
        → Orderly a
        → Filed symbol_key m
        → Kept m.pending
            (recover_dead_subscriptions symbol_key equal_fold is_closed not_serving codes a m)
    unfolding recover_dead_subscriptions
    recover-Kept is_closed not_serving codes a m o (l, q) =
        let (stale, taken) = take_notification_handles m in
        let released = release symbol_key equal_fold stale codes taken in
        let e = taken-eq codes m in
        let same_entries : released.pending ≡ m.pending = ap (λ n. n.pending) e in
        let l0 : Lockstep symbol_key released =
          same_configs symbol_key m released same_entries (ap (λ n. n.configs_by_key) e) l in
        let x = resubscribe_notifications symbol_key equal_fold a released in
        let q0 : Plain released =
          subst Plain (sym e) (record { configs = q.configs; entries = tt }) in
        let k = (resubscribe-Filed a released o (l0, q0)).0 in
        let restored = restore_intent symbol_key released.pending released.channel x.1 in
        let on_file : OnFile m.pending restored =
          subst (λ ps. OnFile ps restored) same_entries
            (restore-Lockstep released.pending released.channel x.1 k) in
        let same : OnFile m.pending m = (Lockstep-filed m l, l) in
        if-both (Kept m.pending) is_closed (inr same) (
          if-both (Kept m.pending) not_serving (inr same) (
            judged-Kept m.pending x.0 (length x.1.active == 0 && ltb 0 (length released.pending))
              restored (raise_registered x.1) on_file))

    -- Where strings.EqualFold and the keys of symbols agree on names of ASCII characters, the names on
    -- file, of the live handles and in the cache are such, the entries and their index are in
    -- lockstep, and what others do while the batch is out keeps all that: a recovery that does not
    -- succeed leaves every entry on file that was on file before it, and the two in lockstep,
    -- whether it was refused, deferred, or failed at any point.
    pub recover_keeps_intent :
        (is_closed not_serving : Bool) (codes : List ℕ) (a : Attempt) (m : Manager)
        → Orderly a
        → Filed symbol_key m
        → (recover_dead_subscriptions symbol_key equal_fold is_closed not_serving codes a m).0
          ≢ done
        → All
            (λ p.
              has_config symbol_key p.config.symbol_name
                (recover_dead_subscriptions symbol_key equal_fold is_closed not_serving codes a m).1
              ≡ true)
            m.pending
          × Lockstep symbol_key
              (recover_dead_subscriptions symbol_key equal_fold is_closed not_serving codes a m).1
    recover_keeps_intent is_closed not_serving codes a m o l e =
        elim (recover-Kept is_closed not_serving codes a m o l) [ inl f ↦ absurd (e f) | inr k ↦ k ]
