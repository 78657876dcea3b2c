-- ===== src/Subscriptions/Single.antt =====
-- `AddSymbolNotification` of notification_api.go, the subscription of one symbol. What the PLC, the
-- cache and the epoch are at each point, and what others do to the manager while the request is
-- out, are in `Call`. The window of early samples, the heartbeat and the logging are left out.
use go_ads.Common.{
  ℕ, ◌≡◌, refl, sym, ap, Result-cases, ltb, length, Bool, true, not, Option, none, some, List, [],
  ◌∷◌, Bytes, Result, ok, err, Fault, if◌then◌else◌, if-both, if-split, Option-split, false, inl,
  inr, ◌⊎◌,
}
use mathlib.Core.Path.{subst}
use go_ads.Common.Dict.{Dict, Bytes-Key, ℕ-Key, lookup, insert, lookup-insert_self}
use go_ads.Subscriptions.{
  Active, Config, Pending, Manager, mismatched, has_live_notification, has_config, add_config,
  raise_registered, bind_handle,
}
use go_ads.Subscriptions.Lockstep.{Lockstep}
use go_ads.Subscriptions.Inv.{set_pending_files, set_pending_frame}
use go_ads.Subscriptions.Batch.Keeps.{same_configs, raised_configs, bind-Lockstep}

-- Why no subscription was made.
pub data Refused : Type 0 where
  not_running mismatched_channel already_active unresolved without_client vanished stranded :
      Refused
  failed : Fault → Refused

pub record Call : Type 0 where
  pub is_running : Bool
  pub resolves : Bool
  pub has_client : Bool
  pub answer : Result ℕ  -- to AddDeviceNotification
  pub symbols : Dict Bytes Bytes  -- the cache, once the answer is in
  pub same_epoch : Bool  -- since the look at the cache
  pub meanwhile : Manager → Manager

-- The handle or the reason, and the handles whose deletion was requested.
pub record Subscribed : Type 0 where
  pub outcome : Option Refused
  pub handle : Option ℕ
  pub released : List ℕ
  pub manager : Manager

abbrev pub refuses : Refused → Manager → Subscribed
refuses why m = record { outcome = some why; handle = none; released = []; manager = m }

-- `releaseUncommittedHandle`, then the error
abbrev pub releases : ℕ → Refused → Manager → Subscribed
releases handle why m = record {
  outcome = some why;
  handle = none;
  released = handle ∷ [];
  manager = m;
}

module _ (symbol_key : Bytes → Bytes) where
  -- What is done with the handle that the PLC has created.
  unfoldable pub commit_one : Call → Config → ℕ → ℕ → Manager → Subscribed
  commit_one call config channel handle m =
      elim (lookup (symbol_key config.symbol_name) call.symbols) [
        | none ↦ releases handle vanished m
        | some full_name ↦
            if not call.same_epoch
            then releases handle stranded m
            else if mismatched m.channel channel
            then releases handle mismatched_channel m
            else if has_live_notification symbol_key config.symbol_name m.active
            then releases handle already_active m
            else record {
              outcome = none;
              handle = some handle;
              released = [];
              manager = bind_handle symbol_key config handle channel full_name m;
            }
      ]

  unfoldable pub add_symbol_notification : Call → Config → ℕ → Manager → Subscribed
  unfolding commit_one
  add_symbol_notification call config channel m =
      let answered : Subscribed = elim call.answer [
        | err e ↦ refuses (failed e) (call.meanwhile m)
        | ok handle ↦ commit_one call config channel handle (call.meanwhile m)
      ] in
      if not call.is_running
      then refuses not_running m
      else if mismatched m.channel channel
      then refuses mismatched_channel m
      else if has_live_notification symbol_key config.symbol_name m.active
      then refuses already_active m
      else if not call.resolves
      then refuses unresolved m
      else if not call.has_client
      then refuses without_client m
      else answered

  not-false : (b : Bool) → not b ≡ false → b ≡ true
  not-false true e = refl
  not-false false e = cc

  raised-active : (m : Manager) → (raise_registered m).active ≡ m.active
  unfolding raise_registered
  raised-active m =
      if-both (λ (n : Manager). n.active ≡ m.active) (ltb m.registered (length m.active)) refl refl

  abbrev pub entry_of : Bytes → ℕ → Active
  entry_of full_name channel = record { symbol = some full_name; channel = channel }

  -- The handle has its entry, and its symbol is on file.
  bound :
      (config : Config) (handle channel : ℕ) (full_name : Bytes) (m : Manager)
      → Lockstep symbol_key m
      → (lookup handle (bind_handle symbol_key config handle channel full_name m).active
          ≡ some (entry_of full_name channel))
        × (has_config symbol_key config.symbol_name
              (bind_handle symbol_key config handle channel full_name m)
            ≡ true)
        × ((bind_handle symbol_key config handle channel full_name m).channel ≡ some channel)
  unfolding bind_handle add_config has_config
  bound config handle channel full_name m l =
      let p : Pending = record { config = config; resubscribe_attempts = 0 } in
      let n : Manager = record m {
        active = insert handle (record { symbol = some full_name; channel = channel }) m.active;
      } in
      let (e, f) = raised_configs n in
      let k : Lockstep symbol_key (raise_registered n) = same_configs symbol_key m _ e f l in
      let (active, _, _) = set_pending_frame symbol_key p (raise_registered n) in
      (
        rw (active, raised-active n)
            (lookup-insert_self handle (entry_of full_name channel) m.active),
        set_pending_files symbol_key p (raise_registered n) k,
        refl,
      )

  -- The handle that the PLC has created for the request.
  abbrev pub granted : Result ℕ → List ℕ
  granted (ok handle) = handle ∷ []
  granted (err e) = []

  -- What the calls of others do keeps the list of configs and its index in lockstep.
  abbrev pub Keeps : (Manager → Manager) → Type 0
  Keeps f = (m : Manager) → Lockstep symbol_key m → Lockstep symbol_key (f m)

  -- The handle that the PLC has created is returned, with an entry for the symbol that the cache has
  -- for the name, in a session that runs, where neither before nor after the request the symbol was
  -- live or another channel on file.
  pub record Owned (call : Call) (config : Config) (channel : ℕ) (m : Manager) (s : Subscribed)
      : Type 0 where
    pub new : ℕ
    pub full_name : Bytes
    pub created : call.answer ≡ ok new
    pub returned : s.handle ≡ some new
    pub unreleased : s.released ≡ []
    pub running : call.is_running ≡ true
    pub resolved : lookup (symbol_key config.symbol_name) call.symbols ≡ some full_name
    pub current : call.same_epoch ≡ true
    pub free :
        (has_live_notification symbol_key config.symbol_name m.active ≡ false)
        × (has_live_notification symbol_key config.symbol_name (call.meanwhile m).active ≡ false)
    pub fits :
        (mismatched m.channel channel ≡ false)
        × (mismatched (call.meanwhile m).channel channel ≡ false)
    pub active : lookup new s.manager.active ≡ some (entry_of full_name channel)
    pub on_file : has_config symbol_key config.symbol_name s.manager ≡ true
    pub one_channel : s.manager.channel ≡ some channel

  -- No handle is returned. Either nothing was requested, or what the PLC has created is released
  -- and the manager is as others have left it.
  abbrev pub Declined : (Manager → Manager) → Result ℕ → Manager → Subscribed → Type 0
  Declined meanwhile answer m s =
      (s.handle ≡ none)
      × (((s.released ≡ []) × (s.manager ≡ m))
          ⊎ ((s.released ≡ granted answer) × (s.manager ≡ meanwhile m)))

  module _ (call : Call) (config : Config) (channel : ℕ) (m : Manager) where
    abbrev Decided : Subscribed → Type 0
    Decided s =
        Lockstep symbol_key s.manager
        × (Owned call config channel m s ⊎ Declined call.meanwhile call.answer m s)

    -- What was seen before the request.
    record Asked : Type 0 where
      running : call.is_running ≡ true
      free : has_live_notification symbol_key config.symbol_name m.active ≡ false
      fits : mismatched m.channel channel ≡ false

    commit_one-Decided :
        (handle : ℕ)
        → Asked
        → call.answer ≡ ok handle
        → Lockstep symbol_key (call.meanwhile m)
        → Decided (commit_one call config channel handle (call.meanwhile m))
    unfolding commit_one
    commit_one-Decided handle asked e l =
        let n = call.meanwhile m in
        let refusal : (granted call.answer ≡ handle ∷ []) = ap granted e in
        let left : (why : Refused) → Decided (releases handle why n) =
          λ why. (l, inr (refl, inr (sym refusal, refl))) in
        Option-split Decided (lookup (symbol_key config.symbol_name) call.symbols)
          (λ _. left vanished)
          (λ full_name found.
            if-split Decided (not call.same_epoch) (λ _. left stranded)
              (λ epoch.
                if-split Decided (mismatched n.channel channel) (λ _. left mismatched_channel)
                  (λ fits.
                    if-split Decided (has_live_notification symbol_key config.symbol_name n.active)
                      (λ _. left already_active)
                      (λ free.
                        let (active, on_file, chan) = bound config handle channel full_name n l in
                        (
                          bind-Lockstep symbol_key config handle channel full_name n l,
                          inl (record {
                            new = handle;
                            full_name = full_name;
                            created = e;
                            returned = refl;
                            unreleased = refl;
                            resolved = found;
                            running = asked.running;
                            current = not-false call.same_epoch epoch;
                            free = (asked.free, free);
                            fits = (asked.fits, fits);
                            active = active;
                            on_file = on_file;
                            one_channel = chan;
                          }),
                        )))))

    -- Where the entries and their index are in lockstep, and what others do keeps them so, they are
    -- afterwards; and either the handle that the PLC has created is returned, with an entry that
    -- binds the symbol of the cache to the channel and with its config on file, in a session that
    -- runs, and neither before nor after the request was the symbol live or another channel on
    -- file; or none is returned, what the PLC has created is released, and the manager is as it was
    -- or as others have left it.
    pub add_symbol_notification_lem :
        Keeps call.meanwhile
        → Lockstep symbol_key m
        → let s = add_symbol_notification call config channel m in
          Lockstep symbol_key s.manager
          × (Owned call config channel m s ⊎ Declined call.meanwhile call.answer m s)
    unfolding add_symbol_notification
    add_symbol_notification_lem k l =
        let alone : (why : Refused) → Decided (refuses why m) =
          λ why. (l, inr (refl, inl (refl, refl))) in
        let answered : Asked
            → Decided (elim call.answer as (λ _. Subscribed) [
              | err e ↦ refuses (failed e) (call.meanwhile m)
              | ok handle ↦ commit_one call config channel handle (call.meanwhile m)
            ]) =
          λ asked. elim (Result-cases call.answer) [
            | inl (e, f) ↦ rw f (k m l, inr (refl, inr (refl, refl)))
            | inr (handle, f) ↦
                subst
                  (λ r. Decided (elim r as (λ _. Subscribed) [
                    | err e ↦ refuses (failed e) (call.meanwhile m)
                    | ok h ↦ commit_one call config channel h (call.meanwhile m)
                  ]))
                  (sym f) (commit_one-Decided handle asked f (k m l))
          ] in
        if-split Decided (not call.is_running) (λ _. alone not_running)
          (λ running.
            if-split Decided (mismatched m.channel channel) (λ _. alone mismatched_channel)
              (λ fits.
                if-split Decided (has_live_notification symbol_key config.symbol_name m.active)
                  (λ _. alone already_active)
                  (λ free. if-both Decided (not call.resolves) (alone unresolved) (
                    if-both Decided (not call.has_client) (alone without_client) (
                      answered (record {
                        running = not-false call.is_running running;
                        free = free;
                        fits = fits;
                      }))))))
