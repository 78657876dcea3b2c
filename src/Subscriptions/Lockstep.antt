-- ===== src/Subscriptions/Lockstep.antt =====
-- `pending` and `configsByKey`, which are to be kept in lockstep, as one map from the keys of
-- symbols to the entries.
use go_ads.Common.{
  ◌≡◌, refl, sym, ◌∙◌, true, false, some, inl, inr, List, [], ◌∷◌, ◌++◌, Bytes, arith, Bool-cases,
}
use go_ads.Common.Dict.{
  Dict, ℕ-Key, Bytes-Key, eq_text, has, insert, IsDict, insert-IsDict, has-insert_self,
  has-insert_ne, eq_text_comm, eq_text→≡,
}
use go_ads.Subscriptions.{Pending, Manager, key_of, replace_first, append_pending, set_pending}

module _ (symbol_key : Bytes → Bytes) where
  -- The entries by their keys.
  unfoldable pub intent : List Pending → Dict Bytes Pending
  intent [] = []
  intent (p ∷ ps) = (key_of symbol_key p, p) ∷ intent ps

  -- The two hold the same keys, and `pending` holds none twice.
  pub record Lockstep (m : Manager) : Type 0 where
    pub single : IsDict (intent m.pending)
    pub indexed : (k : Bytes) → has k m.configs_by_key ≡ has k (intent m.pending)

  intent-append :
      (p : Pending) (ps : List Pending)
      → has (key_of symbol_key p) (intent ps) ≡ false
      → intent (ps ++ (p ∷ [])) ≡ insert (key_of symbol_key p) p (intent ps)
  unfolding intent insert has
  intent-append p [] h = refl
  intent-append p (q ∷ qs) h = ground (arith, intent-append p qs)

  -- An entry is replaced where its key is on file, and the replacement is an insertion.
  intent-replace_first :
      (p : Pending) (ps : List Pending)
      → has (key_of symbol_key p) (intent ps) ≡ true
      → (qs : List Pending) × (replace_first symbol_key (key_of symbol_key p) p ps ≡ some qs)
        × (intent qs ≡ insert (key_of symbol_key p) p (intent ps))
  unfolding intent insert has replace_first
  intent-replace_first p [] h = cc
  intent-replace_first p (q ∷ qs) h =
      elim (Bool-cases (eq_text (key_of symbol_key p) (key_of symbol_key q))) [
        | inl e ↦
            let f : eq_text (key_of symbol_key q) (key_of symbol_key p) ≡ true =
              eq_text_comm (key_of symbol_key q) (key_of symbol_key p) ∙ e in
            (p ∷ qs, rw f, rw e)
        | inr e ↦
            let f : eq_text (key_of symbol_key q) (key_of symbol_key p) ≡ false =
              eq_text_comm (key_of symbol_key q) (key_of symbol_key p) ∙ e in
            let (rs, g, i) = intent-replace_first p qs (rw e at h) in (q ∷ rs, rw (f, g), rw (e, i))
      ]

  insert-indexed :
      (k : Bytes) (p : Pending) (d : Dict Bytes (Unit {0})) (e : Dict Bytes Pending)
      → ((j : Bytes) → has j d ≡ has j e)
      → (j : Bytes) → has j (insert k tt d) ≡ has j (insert k p e)
  insert-indexed k p d e h j = elim (Bool-cases (eq_text j k)) [
    | inl q ↦ rw (eq_text→≡ j k q, has-insert_self k tt d, has-insert_self k p e)
    | inr q ↦ rw (has-insert_ne j k tt d q, has-insert_ne j k p e q, h j)
  ]

  -- An entry whose key is on file changes no membership.
  insert_known-indexed :
      (k : Bytes) (p : Pending) (e : Dict Bytes Pending)
      → has k e ≡ true
      → (j : Bytes) → has j (insert k p e) ≡ has j e
  insert_known-indexed k p e h j = elim (Bool-cases (eq_text j k)) [
    | inl q ↦ rw (eq_text→≡ j k q, has-insert_self k p e, h)
    | inr q ↦ has-insert_ne j k p e q
  ]

  module _ (m : Manager) (p : Pending) (l : Lockstep m) where
    -- Filing an entry is an insertion into the caller's intent, and keeps the two in lockstep.
    pub set_pending_lem :
        (intent (set_pending symbol_key p m).pending
          ≡ insert (key_of symbol_key p) p (intent m.pending))
        × Lockstep (set_pending symbol_key p m)
    set_pending_lem = elim (Bool-cases (has (key_of symbol_key p) m.configs_by_key)) [
      | inl e ↦
          let known : has (key_of symbol_key p) (intent m.pending) ≡ true =
            sym (l.indexed (key_of symbol_key p)) ∙ e in
          let (qs, f, g) = intent-replace_first p m.pending known in
          unfold set_pending in
          rw (e, f)
            (
              g,
              record {
                single = rw g (insert-IsDict (key_of symbol_key p) p (intent m.pending) l.single);
                indexed = λ j.
                    l.indexed j
                    ∙ sym (
                        rw g (
                          insert_known-indexed (key_of symbol_key p) p (intent m.pending) known j));
              },
            )
      | inr e ↦
          let new : has (key_of symbol_key p) (intent m.pending) ≡ false =
            sym (l.indexed (key_of symbol_key p)) ∙ e in
          let g = intent-append p m.pending new in
          unfold set_pending append_pending in
          rw e (
            g,
            record {
              single = rw g (insert-IsDict (key_of symbol_key p) p (intent m.pending) l.single);
              indexed = λ j. rw g (
                  insert-indexed (key_of symbol_key p) p m.configs_by_key (intent m.pending)
                    l.indexed j);
            },
          )
    ]
