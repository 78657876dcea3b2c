-- ===== src/Subscriptions/Inv/Removal.antt =====
-- Deletions keep the bookkeeping in agreement with itself.
use go_ads.Common.{
  ℕ, ◌≤◌, ◌≡◌, refl, ap, sym, ◌∙◌, Bool, true, Option, none, some, ◌⊎◌, inl, inr, List, [], ◌∷◌,
  Bytes, arith, Bool-cases, if-both, Option-split, length, ◌==◌, if◌then◌else◌, ◌&&◌, Fault,
}
use go_ads.Common.Dict.{Dict, ℕ-Key, Bytes-Key, lookup, erase, erase-IsDict, lookup-erase_found}
use go_ads.Common.Dict.Measure.{length-erase-le}
use go_ads.Subscriptions.{Active, Manager, remove_notification_config}
use go_ads.Subscriptions.Delete.{
  is_best_effort_delete_success_err, clean_up, without_name, without_config, after_delete, forget,
  flush, sum_delete_device_notification,
}
use go_ads.Defs.{is_best_effort_delete_success}
use go_ads.Subscriptions.Lockstep.{Lockstep}
use go_ads.Subscriptions.Plain.{IsAscii, Plain, Folds, found-Plain, forget-Plain}
use go_ads.Subscriptions.Configs.{remove_config_lem}
use go_ads.Subscriptions.Inv.{Inv}

module _ (symbol_key : Bytes → Bytes) (equal_fold : Bytes → Bytes → Bool)
    (folds : Folds symbol_key equal_fold) where
  abbrev removed : Bytes → Manager → Manager
  removed = remove_notification_config symbol_key equal_fold

  removed_frame :
      (name : Bytes) (m : Manager)
      → ((removed name m).active ≡ m.active)
        × ((removed name m).registered ≡ m.registered)
        × ((removed name m).channel ≡ m.channel)
  unfolding remove_notification_config
  removed_frame name m = ground arith

  -- What is left after an entry has gone, with or without a config.
  module _ (handle : ℕ) (m : Manager) (v : Inv symbol_key m) (m' : Manager)
      (active : m'.active ≡ erase handle m.active) (lockstep : Lockstep symbol_key m')
      (chan : (m'.channel ≡ m.channel) ⊎ (m'.active ≡ []))
      (counted : length m'.active ≤ m'.registered) where
    was : (h : ℕ) (a : Active) → lookup h m'.active ≡ some a → lookup h m.active ≡ some a
    was h a e = (lookup-erase_found h handle m.active (sym (ap (lookup h) active) ∙ e)).1

    none_left : (h : ℕ) (a : Active) → lookup h m'.active ≡ some a → ¬ (m'.active ≡ [])
    unfolding lookup
    none_left h a e p = cc (ap (lookup h) p, e)

    erase-Inv : Inv symbol_key m'
    erase-Inv = record {
      lockstep = lockstep;
      handles = rw active (erase-IsDict handle m.active v.handles);
      named = λ h a e. v.named h a (was h a e);
      single = λ h j a b n l e f. v.single h j a b n l (was h a e) (was j b f);
      one_channel = λ h a e. elim chan [
        | inl c ↦ c ∙ v.one_channel h a (was h a e)
        | inr p ↦ absurd (none_left h a e p)
      ];
      counted = counted;
    }

  no_entries : (d : Dict ℕ Active) → (length d == 0) ≡ true → d ≡ []
  no_entries [] h = refl
  no_entries (x ∷ d) h = ground arith

  channel_or_empty :
      {A : Type 0} (ours : Bool) (c : Option A) (d : Dict ℕ Active)
      → ((if ours && length d == 0 then none else c) ≡ c) ⊎ (d ≡ [])
  channel_or_empty ours c d = elim (Bool-cases (length d == 0)) [
    | inl e ↦ inr (no_entries d e)
    | inr e ↦ inl (ground (arith, e))
  ]

  -- The manager after a config has been removed, or where there is none to remove.
  record Named (m named : Manager) : Type 0 where
    active : named.active ≡ m.active
    registered : named.registered ≡ m.registered
    channel : named.channel ≡ m.channel
    lockstep : Lockstep symbol_key named

  unnamed : (m : Manager) → Inv symbol_key m → Named m m
  unnamed m v = record { active = refl; registered = refl; channel = refl; lockstep = v.lockstep }

  by_name :
      (name : Bytes) (m : Manager)
      → IsAscii name
      → Plain m
      → Inv symbol_key m
      → Named m (removed name m)
  by_name name m n k v =
      let (a, r, c) = removed_frame name m in
      record {
        active = a;
        registered = r;
        channel = c;
        lockstep = (remove_config_lem symbol_key equal_fold folds name m n k.configs v.lockstep).1;
      }

  without_name-Named :
      (name : Bytes) (m : Manager)
      → IsAscii name
      → Plain m
      → Inv symbol_key m
      → Named m (without_name symbol_key equal_fold name m)
  unfolding without_name
  without_name-Named name m n k v =
      if-both (Named m) (length name == 0) (unnamed m v) (by_name name m n k v)

  without_config-Named :
      (handle : ℕ) (m : Manager)
      → Plain m
      → Inv symbol_key m
      → Named m (without_config symbol_key equal_fold handle m)
  unfolding without_config
  without_config-Named handle m k v =
      Option-split (Named m) (lookup handle m.active) (λ _. unnamed m v)
        (λ a e.
          Option-split (Named m) a.symbol (λ _. unnamed m v)
            (λ name f. by_name name m (found-Plain handle m.active a name k.entries e f) k v))

  cleaned-Inv :
      (handle : ℕ) (ours : Bool) (m named : Manager)
      → Inv symbol_key m
      → Named m named
      → Inv symbol_key (record named {
        active = erase handle named.active;
        registered = length (erase handle named.active);
        channel = if ours && length (erase handle named.active) == 0 then none else named.channel;
      })
  cleaned-Inv handle ours m named v w =
      erase-Inv handle m v _ (ap (erase handle) w.active)
        (record { single = w.lockstep.single; indexed = w.lockstep.indexed })
        (elim (channel_or_empty ours named.channel (erase handle named.active)) [
          | inl p ↦ inl (p ∙ w.channel)
          | inr p ↦ inr p
        ])
        (omega arith)

  forgotten-Inv :
      (teardown : Bool) (handle : ℕ) (m named : Manager)
      → Inv symbol_key m
      → Named m named
      → Inv symbol_key (record named {
        active = erase handle named.active;
        registered = if teardown then length (erase handle named.active) else named.registered;
      })
  forgotten-Inv teardown handle m named v w =
      erase-Inv handle m v _ (ap (erase handle) w.active)
        (record { single = w.lockstep.single; indexed = w.lockstep.indexed }) (inl w.channel)
        (if-both (λ n. length (erase handle named.active) ≤ n) teardown (omega arith)
          (omega (
            arith,
            w.registered,
            v.counted,
            ap length w.active,
            length-erase-le handle named.active,
          )))

  forget-Inv :
      (teardown : Bool) (handle : ℕ) (m : Manager)
      → Plain m
      → Inv symbol_key m
      → Inv symbol_key (forget symbol_key equal_fold teardown handle m)
  unfolding forget
  forget-Inv teardown handle m k v =
      forgotten-Inv teardown handle m (without_config symbol_key equal_fold handle m) v
        (without_config-Named handle m k v)

  flush-Inv :
      (teardown : Bool) (hs codes : List ℕ) (m : Manager)
      → Plain m
      → Inv symbol_key m
      → Inv symbol_key (flush symbol_key equal_fold teardown hs codes m)
  unfolding flush
  flush-Inv teardown (h ∷ hs) (code ∷ codes) m k v =
      flush-Inv teardown hs codes _
        (if-both Plain (is_best_effort_delete_success code)
          (forget-Plain symbol_key equal_fold teardown h m k) k)
        (if-both (Inv symbol_key) (is_best_effort_delete_success code) (forget-Inv teardown h m k v)
          v)
  flush-Inv teardown _ _ m k v = v

  released-Inv :
      (m : Manager)
      → Inv symbol_key m
      → m.active ≡ []
      → Inv symbol_key (record m { channel = none })
  unfolding lookup
  released-Inv m v e = record {
    lockstep = record { single = v.lockstep.single; indexed = v.lockstep.indexed };
    handles = v.handles;
    named = v.named;
    single = v.single;
    one_channel = λ h a f. absurd (cc (ap (lookup h) e, f));
    counted = v.counted;
  }

  -- The end of a deletion by the caller, whatever was read before the request, whatever the PLC has
  -- answered and others have done, keeps the bookkeeping in agreement with itself.
  pub after_delete-Inv :
      (handle : ℕ) (name : Bytes) (ours : Bool) (outcome : Option Fault) (m : Manager)
      → IsAscii name
      → Plain m
      → Inv symbol_key m
      → Inv symbol_key (after_delete symbol_key equal_fold handle (name, ours) outcome m)
  unfolding after_delete clean_up
  after_delete-Inv handle name ours outcome m n k v =
      if-both (Inv symbol_key) (is_best_effort_delete_success_err outcome)
        (cleaned-Inv handle ours m (without_name symbol_key equal_fold name m) v
          (without_name-Named name m n k v))
        v

  pub sum_delete-Inv :
      (teardown : Bool) (hs codes : List ℕ) (m : Manager)
      → Plain m
      → Inv symbol_key m
      → Inv symbol_key (sum_delete_device_notification symbol_key equal_fold teardown hs codes m)
  unfolding sum_delete_device_notification
  sum_delete-Inv teardown hs [] m k v = v
  sum_delete-Inv teardown hs (code ∷ codes) m k v =
      let w = flush-Inv teardown hs (code ∷ codes) m k v in
      elim (Bool-cases (
        teardown
        && length (flush symbol_key equal_fold teardown hs (code ∷ codes) m).active == 0)) [
          | inl e ↦ rw e (released-Inv _ w (no_entries _ (ground (arith, e))))
          | inr e ↦ rw e w
        ]
