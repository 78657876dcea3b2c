-- ===== src/Session/Resubscribe/Laws.antt =====
-- What a failed attempt to register the subscriptions again leaves behind.
use go_ads.Common.{
  ℕ, ◌≡◌, refl, sym, ◌∙◌, Bool, false, Option, none, some, inl, inr, All, List, [], ◌∷◌, Bytes,
  arith, Bool-cases, length, ◌==◌, if-both, Option-both, ◌⊎◌,
}
use go_ads.Common.Dict.{Dict, ℕ-Key, Bytes-Key, has, lookup_absent, erase_absent}
use go_ads.Defs.{is_best_effort_delete_success}
use go_ads.Subscriptions.{Active, Manager, Pending, reset_configs}
use go_ads.Subscriptions.Delete.{without_config, forget, flush, sum_delete_device_notification}
use go_ads.Subscriptions.Batch.{BatchFault, add_symbol_notifications}
use go_ads.Session.Stale.{filter_valid_pending}
use go_ads.Session.Resubscribe.{
  Attempt, roll_back, release, undo, attempt_batch, resubscribe_notifications, configs_of,
}

-- What is kept was there before, and what is not kept was not.
roll_back_lem :
    (before after : Dict ℕ Active) (h : ℕ)
    → has h before ≡ false
    → (has h (roll_back before after).0 ≡ false)
unfolding roll_back has
roll_back_lem before [] h e = refl
roll_back_lem before ((j, a) ∷ d) h e =
    let rest = roll_back_lem before d h e in
    elim (Bool-cases (has j before)) [ inl f ↦ rw f (ground arith) | inr f ↦ rw f rest ]

-- The others' handles.
roll_back_new :
    (before after : Dict ℕ Active) → All (λ h. has h before ≡ false) (roll_back before after).1
unfolding roll_back
roll_back_new before [] = tt
roll_back_new before ((j, a) ∷ d) =
    let rest = roll_back_new before d in
    elim (Bool-cases (has j before)) [ inl f ↦ rw f rest | inr f ↦ rw f (f, rest) ]

-- Of a handle that was not there before, nothing is kept.
kept_absent :
    (before after : Dict ℕ Active)
    → (hs : List ℕ) → All (λ h. has h before ≡ false) hs
    → All (λ h. has h (roll_back before after).0 ≡ false) hs
kept_absent before after [] l = tt
kept_absent before after (h ∷ hs) (e, l) =
    (roll_back_lem before after h e, kept_absent before after hs l)

module _ (symbol_key : Bytes → Bytes) (equal_fold : Bytes → Bytes → Bool) where
  forget_absent :
      (h : ℕ) (m : Manager) → has h m.active ≡ false → forget symbol_key equal_fold false h m ≡ m
  unfolding forget without_config
  forget_absent h m e =
      rw (without_config, lookup_absent h m.active e, erase_absent h m.active e) refl

  -- The deletion of handles that are not active changes nothing.
  flush_absent :
      (hs codes : List ℕ) (m : Manager)
      → All (λ h. has h m.active ≡ false) hs
      → flush symbol_key equal_fold false hs codes m ≡ m
  unfolding flush
  flush_absent [] codes m l = refl
  flush_absent (h ∷ hs) [] m l = refl
  flush_absent (h ∷ hs) (code ∷ codes) m (e, l) =
      elim (Bool-cases (is_best_effort_delete_success code)) [
        | inl f ↦ rw (f, forget_absent h m e) (flush_absent hs codes m l)
        | inr f ↦ rw f (flush_absent hs codes m l)
      ]

  pub release_absent :
      (hs codes : List ℕ) (m : Manager)
      → All (λ h. has h m.active ≡ false) hs
      → release symbol_key equal_fold hs codes m ≡ m
  unfolding sum_delete_device_notification
  release_absent hs [] m l = refl
  release_absent hs (code ∷ codes) m l = flush_absent hs (code ∷ codes) m l

  -- The state that the attempt began with, but for the active handles and what is counted of them.
  undo-eq :
      (a : Attempt) (before m : Manager)
      → undo symbol_key equal_fold a before m
        ≡ record (reset_configs symbol_key before.pending
            (record m { active = (roll_back before.active m.active).0 })) {
              channel = before.channel;
            }
  unfolding undo reset_configs
  undo-eq a before m =
      release_absent (roll_back before.active m.active).1 a.rollback_codes _
        (kept_absent before.active m.active _ (roll_back_new before.active m.active))

  -- `m` has the entries and the channel of `before`, and no handle `h` that `before` has not.
  abbrev Undone : ℕ → Manager → Manager → Type 0
  Undone h before m =
      (m.pending ≡ before.pending) × (m.channel ≡ before.channel) × (has h m.active ≡ false)

  undo-Undone :
      (a : Attempt) (before m : Manager) (h : ℕ)
      → has h before.active ≡ false
      → Undone h before (undo symbol_key equal_fold a before m)
  undo-Undone a before m h e =
      rw (undo-eq a before m)
        (unfold reset_configs in (refl, refl, roll_back_lem before.active m.active h e))

  -- No error, or undone.
  abbrev Settled : ℕ → Manager → Option BatchFault × Manager → Type 0
  Settled h before x = (x.0 ≡ none) ⊎ Undone h before x.1

  attempt_batch-Settled :
      (a : Attempt) (channel : ℕ) (valid : List Pending) (before m : Manager) (h : ℕ)
      → has h before.active ≡ false
      → Settled h before (attempt_batch symbol_key equal_fold a channel valid before m)
  unfolding attempt_batch
  attempt_batch-Settled a channel valid before m h k =
      let b =
        add_symbol_notifications symbol_key equal_fold a.around channel (configs_of valid) m in
      Option-both (Settled h before) b.fault (inl refl) (λ f. inr (undo-Undone a before _ h k))

  resubscribe-Settled :
      (a : Attempt) (m : Manager) (h : ℕ)
      → has h m.active ≡ false
      → Settled h m (resubscribe_notifications symbol_key equal_fold a m)
  unfolding resubscribe_notifications
  resubscribe-Settled a m h k =
      let P = Settled h m in
      let valid = filter_valid_pending symbol_key a.symbols a.on_demand m.pending in
      if-both P (length m.pending == 0) (inl refl) (
        Option-both P m.channel (inl refl) (λ channel.
          if-both P (length valid == 0) (inl refl) (attempt_batch-Settled a channel valid m _ h k)))

  -- Where an attempt to register the subscriptions again returns an error, the entries and the
  -- channel are those from before it, and no handle is active that was not active before it.
  pub resubscribe_rolls_back :
      (a : Attempt) (m : Manager) (h : ℕ) (f : BatchFault)
      → (resubscribe_notifications symbol_key equal_fold a m).0 ≡ some f
      → has h m.active ≡ false
      → ((resubscribe_notifications symbol_key equal_fold a m).1.pending ≡ m.pending)
        × ((resubscribe_notifications symbol_key equal_fold a m).1.channel ≡ m.channel)
        × (has h (resubscribe_notifications symbol_key equal_fold a m).1.active ≡ false)
  resubscribe_rolls_back a m h f e k = elim (resubscribe-Settled a m h k) [
    | inl g ↦ let c : none ≡ some f = sym g ∙ e in absurd cc
    | inr undone ↦ undone
  ]
