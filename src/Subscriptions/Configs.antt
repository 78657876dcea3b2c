-- ===== src/Subscriptions/Configs.antt =====
-- Restoring, replacing and removing what `pending` and `configsByKey` hold.
use go_ads.Common.{
  ◌≡◌, refl, ap, sym, ◌∙◌, Bool, true, false, ◌||◌, some, inl, inr, All, List, [], ◌∷◌, Bytes,
  arith, Bool-cases,
}
use mathlib.Core.Bool.{or-false}
use go_ads.Common.Dict.{
  Dict, Bytes-Key, eq_text, eq_text_comm, eq_text→≡, lookup, has, insert, erase, IsDict,
  erase-IsDict, erase_absent, has-insert_self, has-insert_ne, has-erase_self, has-erase_ne,
  has_present, lookup_present, lookup-insert_new,
}
use go_ads.Subscriptions.{
  Pending, Manager, key_of, has_config, restore_entry, set_pending, index_keys, reset_configs,
  restore_configs, remove_first, remove_notification_config,
}
use go_ads.Subscriptions.Lockstep.{intent, Lockstep, set_pending_lem}
use go_ads.Subscriptions.Plain.{IsAscii, PlainConfig, Folds}

module _ (symbol_key : Bytes → Bytes) where
  -- In lockstep again, and with every entry that was on file.
  abbrev pub Extends : Manager → Manager → Type 0
  Extends m m' =
      Lockstep symbol_key m'
      × ((k : Bytes) (q : Pending)
          → lookup k (intent symbol_key m.pending) ≡ some q
          → lookup k (intent symbol_key m'.pending) ≡ some q)

  pub restore_known :
      (p : Pending) (m : Manager)
      → has (key_of symbol_key p) m.configs_by_key ≡ true
      → restore_entry symbol_key p m ≡ m
  unfolding restore_entry
  restore_known p m e = rw e

  pub restore_new :
      (p : Pending) (m : Manager)
      → has (key_of symbol_key p) m.configs_by_key ≡ false
      → restore_entry symbol_key p m ≡ set_pending symbol_key p m
  unfolding restore_entry
  restore_new p m e = rw e

  restore_entry-Extends :
      (p : Pending) (m : Manager) → Lockstep symbol_key m → Extends m (restore_entry symbol_key p m)
  restore_entry-Extends p m l = elim (Bool-cases (has (key_of symbol_key p) m.configs_by_key)) [
    | inl e ↦ rw (restore_known p m e) (l, λ k q f. f)
    | inr e ↦
        let (shape, l') = set_pending_lem symbol_key m p l in
        let absent : has (key_of symbol_key p) (intent symbol_key m.pending) ≡ false =
          sym (l.indexed (key_of symbol_key p)) ∙ e in
        rw (restore_new p m e) (
          l',
          λ k q f.
              rw shape (
                lookup-insert_new k (key_of symbol_key p) p (intent symbol_key m.pending) absent f),
        )
  ]

  restore_entry-has :
      (p : Pending) (m : Manager)
      → Lockstep symbol_key m
      → has (key_of symbol_key p) (intent symbol_key (restore_entry symbol_key p m).pending) ≡ true
  restore_entry-has p m l = elim (Bool-cases (has (key_of symbol_key p) m.configs_by_key)) [
    | inl e ↦ rw (restore_known p m e) (sym (l.indexed (key_of symbol_key p)) ∙ e)
    | inr e ↦
        rw (restore_new p m e, (set_pending_lem symbol_key m p l).0)
          (has-insert_self (key_of symbol_key p) p (intent symbol_key m.pending))
  ]

  pub restore_configs-Extends :
      (ps : List Pending) (m : Manager)
      → Lockstep symbol_key m
      → Extends m (restore_configs symbol_key ps m)
  unfolding restore_configs
  restore_configs-Extends [] m l = (l, λ k q e. e)
  restore_configs-Extends (p ∷ ps) m l =
      let (l', kept) = restore_entry-Extends p m l in
      let (l'', kept') = restore_configs-Extends ps (restore_entry symbol_key p m) l' in
      (l'', λ k q e. kept' k q (kept k q e))

  on_file :
      (ps : List Pending) (m : Manager)
      → Lockstep symbol_key m
      → All
          (λ p. has_config symbol_key p.config.symbol_name (restore_configs symbol_key ps m) ≡ true)
          ps
  unfolding restore_configs has_config
  on_file [] m l = tt
  on_file (p ∷ ps) m l =
      let (l', _) = restore_entry-Extends p m l in
      let (l'', kept) = restore_configs-Extends ps (restore_entry symbol_key p m) l' in
      let (q, f) =
        lookup_present (key_of symbol_key p)
          (intent symbol_key (restore_entry symbol_key p m).pending) (restore_entry-has p m l) in
      (
        l''.indexed (key_of symbol_key p)
            ∙ has_present (key_of symbol_key p)
                (intent symbol_key
                  (restore_configs symbol_key ps (restore_entry symbol_key p m)).pending)
                q (kept (key_of symbol_key p) q f),
        on_file ps (restore_entry symbol_key p m) l',
      )

  -- Restoring a snapshot keeps what is on file as it is, brings every symbol of the snapshot back
  -- on file, and keeps the two in lockstep.
  pub restore_configs_lem :
      (ps : List Pending) (m : Manager)
      → Lockstep symbol_key m
      → Extends m (restore_configs symbol_key ps m)
        × All
            (λ p.
              has_config symbol_key p.config.symbol_name (restore_configs symbol_key ps m) ≡ true)
            ps
  restore_configs_lem ps m l = (restore_configs-Extends ps m l, on_file ps m l)

  has-index_keys :
      (ps : List Pending) (d : Dict Bytes (Unit {0})) (k : Bytes)
      → has k (index_keys symbol_key ps d) ≡ (has k (intent symbol_key ps) || has k d)
  unfolding index_keys intent has
  has-index_keys [] d k = refl
  has-index_keys (p ∷ ps) d k = elim (Bool-cases (eq_text k (key_of symbol_key p))) [
    | inl e ↦
        rw (e, has-index_keys ps (insert (key_of symbol_key p) tt d) k)
          (ground (
            arith,
            eq_text→≡ k (key_of symbol_key p) e,
            has-insert_self (key_of symbol_key p) tt d,
          ))
    | inr e ↦ rw (
      e,
      has-index_keys ps (insert (key_of symbol_key p) tt d) k,
      has-insert_ne k (key_of symbol_key p) tt d e,
    )
  ]

  pub reset_configs-Lockstep :
      (ps : List Pending) (m : Manager)
      → IsDict (intent symbol_key ps)
      → Lockstep symbol_key (reset_configs symbol_key ps m)
  unfolding reset_configs has
  reset_configs-Lockstep ps m h = record {
    single = h;
    indexed = λ k. rw (has-index_keys ps [] k) (or-false (has k (intent symbol_key ps)));
  }

  module _ (equal_fold : Bytes → Bytes → Bool) (folds : Folds symbol_key equal_fold) where
    intent-remove_first :
        (name : Bytes) (ps : List Pending)
        → IsAscii name
        → All PlainConfig ps
        → IsDict (intent symbol_key ps)
        → intent symbol_key (remove_first symbol_key equal_fold name ps)
          ≡ erase (symbol_key name) (intent symbol_key ps)
    unfolding intent remove_first erase IsDict
    intent-remove_first name [] n k h = refl
    intent-remove_first name (p ∷ ps) n (q, k) (h, hs) =
        elim (Bool-cases (eq_text (symbol_key name) (key_of symbol_key p))) [
          | inl e ↦
              let key : symbol_key name ≡ key_of symbol_key p = eq_text→≡ _ _ e in
              rw
                (
                  e,
                  folds p.config.symbol_name name q n,
                  eq_text_comm (key_of symbol_key p) (symbol_key name),
                  e,
                )
                (sym (erase_absent (symbol_key name) (intent symbol_key ps) (rw key h)))
          | inr e ↦
              rw
                (
                  folds p.config.symbol_name name q n,
                  eq_text_comm (key_of symbol_key p) (symbol_key name),
                  e,
                )
                (ap (λ d. (key_of symbol_key p, p) ∷ d) (intent-remove_first name ps n k hs))
        ]

    erase-indexed :
        (k : Bytes) (d : Dict Bytes (Unit {0})) (e : Dict Bytes Pending)
        → ((j : Bytes) → has j d ≡ has j e)
        → (j : Bytes) → has j (erase k d) ≡ has j (erase k e)
    erase-indexed k d e h j = elim (Bool-cases (eq_text j k)) [
      | inl q ↦ rw (eq_text→≡ j k q, has-erase_self k d, has-erase_self k e)
      | inr q ↦ rw (has-erase_ne j k d q, has-erase_ne j k e q, h j)
    ]

    -- Where strings.EqualFold and the keys of symbols agree on names of ASCII characters, and the
    -- name and those on file are such: removing a symbol's config removes its entry and no other,
    -- and keeps the list of configs and its index in lockstep.
    pub remove_config_lem :
        (name : Bytes) (m : Manager)
        → IsAscii name
        → All PlainConfig m.pending
        → Lockstep symbol_key m
        → (intent symbol_key (remove_notification_config symbol_key equal_fold name m).pending
            ≡ erase (symbol_key name) (intent symbol_key m.pending))
          × Lockstep symbol_key (remove_notification_config symbol_key equal_fold name m)
    remove_config_lem name m n k l = elim (Bool-cases (has (symbol_key name) m.configs_by_key)) [
      | inl e ↦
          let g = intent-remove_first name m.pending n k l.single in
          unfold remove_notification_config in
          rw e (
            g,
            record {
              single = rw g (erase-IsDict (symbol_key name) (intent symbol_key m.pending) l.single);
              indexed = λ j. rw g (
                  erase-indexed (symbol_key name) m.configs_by_key (intent symbol_key m.pending)
                    l.indexed j);
            },
          )
      | inr e ↦
          let absent : has (symbol_key name) (intent symbol_key m.pending) ≡ false =
            sym (l.indexed (symbol_key name)) ∙ e in
          unfold remove_notification_config in
          rw e (sym (erase_absent (symbol_key name) (intent symbol_key m.pending) absent), l)
    ]
