-- ===== src/Subscriptions/History.antt =====
-- Any sequence of the critical sections of `notifications.lock`, from a new manager on.
use go_ads.Common.{
  ℕ, ◌≡◌, refl, ap, sym, ◌∙◌, Bool, Option, none, some, List, [], ◌∷◌, Bytes, arith, All,
  Bool-cases, inl, inr, Fault, Option-split,
}
use go_ads.Common.Dict.{Dict, ℕ-Key, Bytes-Key, lookup, has, IsDict}
use go_ads.Subscriptions.{
  Config, Pending, Active, Manager, key_of, restore_entry, restore_configs, commit_notification,
  take_notification_handles,
}
use go_ads.Subscriptions.Delete.{
  name_of, delete_device_notification, after_delete, sum_delete_device_notification,
}
use go_ads.Subscriptions.Plain.{
  IsAscii, PlainConfig, Plain, Folds, commit_notification-Plain, after_delete-Plain,
  sum_delete-Plain, restore_configs-Plain, take-Plain, found-Plain,
}
use go_ads.Subscriptions.Lockstep.{intent}
use go_ads.Subscriptions.Configs.{restore_configs-Extends, restore_known, restore_new}
use go_ads.Subscriptions.Inv.{Inv, set_pending_frame, commit_notification-Inv}
use go_ads.Subscriptions.Inv.Removal.{after_delete-Inv, sum_delete-Inv}

-- newNotificationManager, as far as the bookkeeping goes
unfoldable pub empty : Manager
empty = record {
  active = [];
  pending = [];
  configs_by_key = [];
  channel = none;
  registered = 0;
  heartbeat_handle = 0;
}

-- `deletes` is the end of a deletion, with what was read before its request: that may have been at
-- any time before.
pub data Call : Type 0 where
  commits : Dict Bytes Bytes → Bool → Config → ℕ → ℕ → Call
  deletes : ℕ → Bytes → Bool → Option Fault → Call
  sum_deletes : Bool → List ℕ → List ℕ → Call
  restores : List Pending → Call
  takes : Call

module _ (symbol_key : Bytes → Bytes) where
  restored_frame :
      (ps : List Pending) (m : Manager)
      → ((restore_configs symbol_key ps m).active ≡ m.active)
        × ((restore_configs symbol_key ps m).registered ≡ m.registered)
        × ((restore_configs symbol_key ps m).channel ≡ m.channel)
  unfolding restore_configs
  restored_frame [] m = (refl, refl, refl)
  restored_frame (p ∷ ps) m =
      let (a, r, c) = restored_frame ps (restore_entry symbol_key p m) in
      elim (Bool-cases (has (key_of symbol_key p) m.configs_by_key)) [
        | inl e ↦
            let k = restore_known symbol_key p m e in
            (a ∙ ap (λ x. x.active) k, r ∙ ap (λ x. x.registered) k, c ∙ ap (λ x. x.channel) k)
        | inr e ↦
            let k = restore_new symbol_key p m e in
            let (a', r', c') = set_pending_frame symbol_key p m in
            (
              a ∙ ap (λ x. x.active) k ∙ a',
              r ∙ ap (λ x. x.registered) k ∙ r',
              c ∙ ap (λ x. x.channel) k ∙ c',
            )
      ]

  restored-Inv :
      (ps : List Pending) (m : Manager)
      → Inv symbol_key m
      → Inv symbol_key (restore_configs symbol_key ps m)
  restored-Inv ps m v =
      let (a, r, c) = restored_frame ps m in
      let (l, kept) = restore_configs-Extends symbol_key ps m v.lockstep in
      let was : (h : ℕ) (b : Active)
          → lookup h (restore_configs symbol_key ps m).active ≡ some b
          → lookup h m.active ≡ some b =
        λ h b e. sym (ap (lookup h) a) ∙ e in
      record {
        lockstep = l;
        handles = rw a v.handles;
        named = λ h b e. v.named h b (was h b e);
        single = λ h j b d n i e f. v.single h j b d n i (was h b e) (was j d f);
        one_channel = λ h b e. c ∙ v.one_channel h b (was h b e);
        counted = rw (a, r) v.counted;
      }

  take-Inv : (m : Manager) → Inv symbol_key m → Inv symbol_key (take_notification_handles m).1
  unfolding take_notification_handles lookup IsDict
  take-Inv m v = record {
    lockstep = record { single = v.lockstep.single; indexed = v.lockstep.indexed };
    handles = tt;
    named = λ h a e. absurd (cc e);
    single = λ h j a b n l e. absurd (cc e);
    one_channel = λ h a e. absurd (cc e);
    counted = omega arith;
  }

  empty-Inv : Inv symbol_key empty
  unfolding empty lookup IsDict has intent
  empty-Inv = record {
    lockstep = record { single = tt; indexed = λ k. refl };
    handles = tt;
    named = λ h a e. absurd (cc e);
    single = λ h j a b n l e. absurd (cc e);
    one_channel = λ h a e. absurd (cc e);
    counted = omega arith;
  }

  -- The names are of ASCII characters, and the cache has each symbol under its own key.
  abbrev pub Fits : Call → Type 0
  Fits (commits symbols _ config _ _) =
      IsAscii config.symbol_name
      × ((name full_name : Bytes)
          → lookup (symbol_key name) symbols ≡ some full_name
          → (symbol_key full_name ≡ symbol_key name) × IsAscii full_name)
  Fits (deletes _ name _ _) = IsAscii name
  Fits (sum_deletes _ _ _) = Unit {0}
  Fits (restores ps) = All PlainConfig ps
  Fits takes = Unit {0}

  module _ (equal_fold : Bytes → Bytes → Bool) where
    unfoldable pub step : Manager → Call → Manager
    step m (commits symbols same_epoch config handle channel) =
        (commit_notification symbol_key symbols same_epoch config handle channel m).1
    step m (deletes handle name ours outcome) =
        after_delete symbol_key equal_fold handle (name, ours) outcome m
    step m (sum_deletes user_teardown hs codes) =
        sum_delete_device_notification symbol_key equal_fold user_teardown hs codes m
    step m (restores ps) = restore_configs symbol_key ps m
    step m takes = (take_notification_handles m).1

    unfoldable pub run : Manager → List Call → Manager
    unfolding step
    run m [] = m
    run m (c ∷ cs) = run (step m c) cs

    step-Plain : (c : Call) (m : Manager) → Fits c → Plain m → Plain (step m c)
    unfolding step
    step-Plain (commits symbols same_epoch config handle channel) m (c, f) k =
        commit_notification-Plain symbol_key symbols same_epoch config handle channel m c
          (λ name full_name e. (f name full_name e).1) k
    step-Plain (deletes handle name ours outcome) m f k =
        after_delete-Plain symbol_key equal_fold handle name ours outcome m k
    step-Plain (sum_deletes user_teardown hs codes) m f k =
        sum_delete-Plain symbol_key equal_fold user_teardown hs codes m k
    step-Plain (restores ps) m f k = restore_configs-Plain symbol_key ps m f k
    step-Plain takes m f k = take-Plain m k

    module _ (folds : Folds symbol_key equal_fold) where
      step-Inv :
          (c : Call) (m : Manager) → Fits c → Plain m → Inv symbol_key m → Inv symbol_key (step m c)
      unfolding step
      step-Inv (commits symbols same_epoch config handle channel) m (_, f) k v =
          commit_notification-Inv symbol_key symbols same_epoch config handle channel m
            (λ name full_name e. (f name full_name e).0) v
      step-Inv (deletes handle name ours outcome) m f k v =
          after_delete-Inv symbol_key equal_fold folds handle name ours outcome m f k v
      step-Inv (sum_deletes user_teardown hs codes) m f k v =
          sum_delete-Inv symbol_key equal_fold folds user_teardown hs codes m k v
      step-Inv (restores ps) m f k v = restored-Inv ps m v
      step-Inv takes m f k v = take-Inv m v

      run-Inv :
          (cs : List Call) (m : Manager)
          → All Fits cs
          → Plain m
          → Inv symbol_key m
          → Inv symbol_key (run m cs)
      unfolding run
      run-Inv [] m f k v = v
      run-Inv (c ∷ cs) m (f, fs) k v =
          run-Inv cs (step m c) fs (step-Plain c m f k) (step-Inv c m f k v)

      -- Where strings.EqualFold and the keys of symbols agree on names of ASCII characters: after any
      -- sequence of the critical sections of commits, deletions, sweeps and restorations of configs,
      -- with such names, where the cache has each symbol under its own key and a deletion by the
      -- caller ends with what it read at any time: each live handle has a symbol; no two have the
      -- same one; all have the channel on file; the baseline is at least their number; and the list
      -- of configs and its index have the same keys, none twice.
      pub run-empty-Inv : (cs : List Call) → All Fits cs → Inv symbol_key (run empty cs)
      unfolding empty
      run-empty-Inv cs f = run-Inv cs empty f (record { configs = tt; entries = tt }) empty-Inv

      run-Plain : (cs : List Call) (m : Manager) → All Fits cs → Plain m → Plain (run m cs)
      unfolding run
      run-Plain [] m f k = k
      run-Plain (c ∷ cs) m (f, fs) k = run-Plain cs (step m c) fs (step-Plain c m f k)

      read-IsAscii : (handle : ℕ) (m : Manager) → Plain m → IsAscii (name_of handle m)
      unfolding name_of
      read-IsAscii handle m k =
          Option-split IsAscii (lookup handle m.active) (λ _. tt)
            (λ a e.
              Option-split IsAscii a.symbol (λ _. tt)
                (λ name f. found-Plain handle m.active a name k.entries e f))

      -- A whole deletion by the caller keeps the bookkeeping in agreement with itself, with any
      -- sequence of such calls while its request is out.
      delete_device_notification-Inv :
          (handle : ℕ) (outcome : Option Fault) (cs : List Call) (m : Manager)
          → All Fits cs
          → Plain m
          → Inv symbol_key m
          → Inv symbol_key
              (delete_device_notification symbol_key equal_fold handle outcome (λ n. run n cs) m).1
      unfolding delete_device_notification
      delete_device_notification-Inv handle outcome cs m f k v =
          after_delete-Inv symbol_key equal_fold folds handle (name_of handle m)
            (has handle m.active) outcome (run m cs) (read-IsAscii handle m k) (run-Plain cs m f k)
            (run-Inv cs m f k v)
