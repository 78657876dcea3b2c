-- ===== src/Subscriptions/Batch/Keeps.antt =====
-- The list of configs and its index stay in lockstep through a batch.
use go_ads.Common.{
  ℕ, ◌≡◌, refl, Bool, false, ◌&&◌, not, Option, some, List, [], ◌∷◌, Bytes, arith, All,
  if◌then◌else◌, if-both, Option-both, Option-split, Option-cases, ◌||◌, inl, inr, ◌==◌, length,
}
use go_ads.Common.Dict.{Dict, insert, ℕ-Key, Bytes-Key, has, lookup}
use go_ads.Defs.{is_best_effort_delete_success}
use go_ads.Subscriptions.{
  Config, Pending, Manager, Refusal, mismatched, has_live_notification, raise_registered,
  remove_notification_config, add_config, set_pending, bind_handle, live_notification_names,
  commit_notification,
}
use go_ads.Subscriptions.Delete.{without_config, forget, flush, sum_delete_device_notification}
use go_ads.Subscriptions.Lockstep.{Lockstep, set_pending_lem}
use go_ads.Subscriptions.Configs.{remove_config_lem}
use go_ads.Subscriptions.Plain.{
  IsAscii, Plain, Folds, found-Plain, removed-Plain, forget-Plain, commit_notification-Plain,
}
use go_ads.Subscriptions.Batch.{
  Answer, Outcome, on_item, on_items, amend, mark, mark_aborted, is_reported, requests_of, Planned,
  Around, Batch, send_batch, plan, add_symbol_notifications,
}

pub raised_configs :
    (m : Manager)
    → ((raise_registered m).pending ≡ m.pending)
      × ((raise_registered m).configs_by_key ≡ m.configs_by_key)
unfolding raise_registered
raised_configs m = ground arith

-- What holds of both outcomes holds whether anything is requested.
list-both :
    (P : Batch → Type 0) (rs : List Config) (x y : Batch)
    → P x
    → P y
    → P (elim rs as (λ _. Batch) [ [] ↦ y | _ ∷ _ ↦ x ])
list-both P [] x y h k = k
list-both P (r ∷ rs) x y h k = h

module _ (symbol_key : Bytes → Bytes) where
  -- Only the two are looked at.
  pub same_configs :
      (m m' : Manager)
      → m'.pending ≡ m.pending
      → m'.configs_by_key ≡ m.configs_by_key
      → Lockstep symbol_key m
      → Lockstep symbol_key m'
  same_configs m m' p c l = record {
    single = rw p l.single;
    indexed = λ k. rw (p, c) (l.indexed k);
  }

  pub bind-Lockstep :
      (config : Config) (handle channel : ℕ) (full_name : Bytes) (m : Manager)
      → Lockstep symbol_key m
      → Lockstep symbol_key (bind_handle symbol_key config handle channel full_name m)
  unfolding bind_handle add_config
  bind-Lockstep config handle channel full_name m l =
      let p : Pending = record { config = config; resubscribe_attempts = 0 } in
      let n : Manager = record m {
        active = insert handle (record { symbol = some full_name; channel = channel }) m.active;
      } in
      let bound : Manager = raise_registered n in
      let (e, f) = raised_configs n in
      let k : Lockstep symbol_key bound = same_configs m bound e f l in
      let filed = (set_pending_lem symbol_key bound p k).1 in
      same_configs (set_pending symbol_key p bound) _ refl refl filed

  commit-Lockstep :
      (symbols : Dict Bytes Bytes) (same_epoch : Bool) (config : Config) (handle channel : ℕ)
      (m : Manager)
      → Lockstep symbol_key m
      → Lockstep symbol_key
          (commit_notification symbol_key symbols same_epoch config handle channel m).1
  unfolding commit_notification
  commit-Lockstep symbols same_epoch config handle channel m l =
      let P = λ (x : Option Refusal × Manager). Lockstep symbol_key x.1 in
      if-both P (not same_epoch) l
        (elim (Option-cases (lookup (symbol_key config.symbol_name) symbols)) [
          | inl e ↦ rw e l
          | inr (full_name, e) ↦ rw e (
              if-both P (mismatched m.channel channel) l (
                if-both P (has_live_notification symbol_key config.symbol_name m.active) l
                  (bind-Lockstep config handle channel full_name m l)))
        ])

  -- In lockstep, and with names of ASCII characters.
  abbrev pub Filed : Manager → Type 0
  Filed m = Lockstep symbol_key m × Plain m

  -- What others do keeps the two in lockstep, with such names.
  abbrev pub Keeps : (Manager → Manager) → Type 0
  Keeps f = (m : Manager) → Filed m → Filed (f m)

  -- When an answer comes in, the cache has such names, and others have kept the two in lockstep.
  abbrev pub Orderly : Answer → Type 0
  Orderly a =
      Keeps a.meanwhile
      × ((name full_name : Bytes)
          → lookup (symbol_key name) a.symbols ≡ some full_name
          → IsAscii full_name)

  abbrev pub PlainName : Config → Type 0
  PlainName c = IsAscii c.symbol_name

  abbrev PlainOutcome : Outcome → Type 0
  PlainOutcome o = IsAscii o.config.symbol_name

  abbrev ItemFits : Outcome × Manager → Type 0
  ItemFits x = PlainOutcome x.0 × Filed x.1

  item-Filed :
      (channel : ℕ) (c : Config) (a : Answer) (m : Manager)
      → PlainName c
      → Orderly a
      → Filed m
      → ItemFits (on_item symbol_key channel c a m)
  unfolding on_item
  item-Filed channel c a m n (k, cached) l =
      let before = k m l in
      let done : Filed
          (commit_notification symbol_key a.symbols a.same_epoch c a.handle channel
            (a.meanwhile m)).1 =
        (
          commit-Lockstep a.symbols a.same_epoch c a.handle channel (a.meanwhile m) before.0,
          commit_notification-Plain symbol_key a.symbols a.same_epoch c a.handle channel
              (a.meanwhile m) n cached before.1,
        ) in
      if-both ItemFits a.is_skipped (n, before)
        (if-both ItemFits (a.handle == 0 && a.error == 0) (n, before)
          (if-both ItemFits (not (a.error == 0)) (n, before)
            (Option-both ItemFits
              (commit_notification symbol_key a.symbols a.same_epoch c a.handle channel
                (a.meanwhile m)).0
              (n, done) (λ r. (n, done)))))

  items-Filed :
      (channel : ℕ) (cs : List Config) (answers : List Answer) (m : Manager)
      → All PlainName cs
      → All Orderly answers
      → Filed m
      → All PlainOutcome (on_items symbol_key channel cs answers m).0
        × Filed (on_items symbol_key channel cs answers m).1
  unfolding on_items
  items-Filed channel [] answers m n k l = (tt, l)
  items-Filed channel (c ∷ cs) [] m (n, ns) k l =
      let (os, f) = items-Filed channel cs [] m ns tt l in ((n, os), f)
  items-Filed channel (c ∷ cs) (a ∷ answers) m (n, ns) (k, ks) l =
      let (o, f) = item-Filed channel c a m n k l in
      let (os, g) = items-Filed channel cs answers _ ns ks f in ((o, os), g)

  -- What is planned are names that were asked for.
  plan-PlainName :
      (resolves : Bytes → Bool) (existing seen : Dict Bytes (Unit {0})) (cs : List Config)
      → All PlainName cs
      → All PlainName (requests_of (plan symbol_key resolves existing seen cs))
  unfolding plan
  plan-PlainName resolves existing seen [] n = tt
  plan-PlainName resolves existing seen (c ∷ cs) (n, ns) =
      let is_double =
        has (symbol_key c.symbol_name) existing || has (symbol_key c.symbol_name) seen in
      let seen' = if is_double then seen else insert (symbol_key c.symbol_name) tt seen in
      let rest = plan-PlainName resolves existing seen' cs ns in
      let P = λ (x : Planned).
        All PlainName (requests_of (x ∷ plan symbol_key resolves existing seen' cs)) in
      if-both P is_double rest (if-both P (resolves c.symbol_name) (n, rest) rest)

  marked-Plain :
      (aborted : Bool) (os : List Outcome)
      → All PlainOutcome os
      → All PlainOutcome (mark_aborted aborted os)
  unfolding mark_aborted mark
  marked-Plain aborted [] n = tt
  marked-Plain aborted (o ∷ os) (n, ns) =
      (if-both PlainOutcome (aborted && not (is_reported o.slot)) n n, marked-Plain aborted os ns)

  module _ (equal_fold : Bytes → Bytes → Bool) (folds : Folds symbol_key equal_fold) where
    removed-Filed :
        (name : Bytes) (m : Manager)
        → IsAscii name
        → Filed m
        → Filed (remove_notification_config symbol_key equal_fold name m)
    removed-Filed name m n (l, k) = (
      (remove_config_lem symbol_key equal_fold folds name m n k.configs l).1,
      removed-Plain symbol_key equal_fold name m k,
    )

    amend-Filed :
        (os : List Outcome) (m : Manager)
        → All PlainOutcome os
        → Filed m
        → Filed (amend symbol_key equal_fold os m).1
    unfolding amend
    amend-Filed [] m n l = l
    amend-Filed (o ∷ os) m (n, ns) l = amend-Filed os _ ns (
        if-both Filed (o.is_committed && not (has o.slot.handle m.active))
          (removed-Filed o.config.symbol_name m n l) l)

    forget-Lockstep :
        (teardown : Bool) (handle : ℕ) (m : Manager)
        → Filed m
        → Lockstep symbol_key (forget symbol_key equal_fold teardown handle m)
    unfolding forget without_config
    forget-Lockstep teardown handle m (l, k) = same_configs _ _ refl refl (
        Option-split (Lockstep symbol_key) (lookup handle m.active) (λ _. l)
          (λ a e.
            Option-split (Lockstep symbol_key) a.symbol (λ _. l)
              (λ name f.
                (removed-Filed name m (found-Plain handle m.active a name k.entries e f)
                  (l, k)).0)))

    flush-Filed :
        (teardown : Bool) (hs codes : List ℕ) (m : Manager)
        → Filed m
        → Filed (flush symbol_key equal_fold teardown hs codes m)
    unfolding flush
    flush-Filed teardown [] codes m l = l
    flush-Filed teardown (h ∷ hs) [] m l = l
    flush-Filed teardown (h ∷ hs) (code ∷ codes) m l = flush-Filed teardown hs codes _ (
        if-both Filed (is_best_effort_delete_success code)
          (forget-Lockstep teardown h m l, forget-Plain symbol_key equal_fold teardown h m l.1) l)

    pub sum_delete-Filed :
        (teardown : Bool) (hs codes : List ℕ) (m : Manager)
        → Filed m
        → Filed (sum_delete_device_notification symbol_key equal_fold teardown hs codes m)
    unfolding sum_delete_device_notification
    sum_delete-Filed teardown hs [] m l = l
    sum_delete-Filed teardown hs (code ∷ codes) m l =
        let (k, q) = flush-Filed teardown hs (code ∷ codes) m l in
        if-both Filed
          (teardown
            && length (flush symbol_key equal_fold teardown hs (code ∷ codes) m).active == 0)
          (same_configs _ _ refl refl k, record { configs = q.configs; entries = q.entries }) (k, q)

    send_batch-Filed :
        (w : Around) (channel : ℕ) (ps : List Planned) (m : Manager)
        → All PlainName (requests_of ps)
        → All Orderly w.answers
        → Keeps w.later
        → Filed m
        → Filed (send_batch symbol_key equal_fold w channel ps m).manager
    unfolding send_batch
    send_batch-Filed w channel ps m n k j l =
        let heard = if w.connected then w.answers else [] in
        let ks = if-both (All Orderly) w.connected {a = w.answers} {b = []} k tt in
        let (os, f) = items-Filed channel (requests_of ps) heard m n ks l in
        let x = on_items symbol_key channel (requests_of ps) heard m in
        let marked = marked-Plain (w.connected && w.aborted) x.0 os in
        sum_delete-Filed false _ w.release_codes _ (amend-Filed _ _ marked (j _ f))

    -- What others do meanwhile keeps the two in lockstep, so the batch does.
    pub add_symbol_notifications-Filed :
        (w : Around) (channel : ℕ) (cs : List Config) (m : Manager)
        → All PlainName cs
        → All Orderly w.answers
        → Keeps w.later
        → Filed m
        → Filed (add_symbol_notifications symbol_key equal_fold w channel cs m).manager
    unfolding add_symbol_notifications
    add_symbol_notifications-Filed w channel [] m n k j l = l
    add_symbol_notifications-Filed w channel (c ∷ cs) m n k j l =
        let live = live_notification_names symbol_key m.active in
        let ps = plan symbol_key w.resolves live [] (c ∷ cs) in
        let P = λ (b : Batch). Filed b.manager in
        if-both P (not w.may_run) l (
          if-both P (mismatched m.channel channel) l (
            list-both P (requests_of ps) _ _
              (send_batch-Filed w channel ps m (plan-PlainName w.resolves live [] (c ∷ cs) n) k j l)
              l))
