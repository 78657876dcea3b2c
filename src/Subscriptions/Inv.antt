-- ===== src/Subscriptions/Inv.antt =====
-- What `notificationManager` promises: the bookkeeping agrees with itself after every operation.
pub mod Removal
use go_ads.Common.{
  ℕ, ◌≤◌, ◌≡◌, refl, ap, sym, ◌∙◌, Bool, true, false, ◌||◌, Option, none, some, ◌⊎◌, inl, inr, List,
  [], ◌∷◌, Bytes, arith, Bool-cases, Option-cases, if-both, ltb, length, ◌==◌, ==_iff, not,
}
use go_ads.Common.Dict.{
  Dict, ℕ-Key, Bytes-Key, eq_text, eq_text_refl, eq_text→≡, lookup, has, insert, erase, IsDict,
  insert-IsDict, erase-IsDict, has-insert_self, has-insert_ne, has-erase_ne, lookup-insert_found,
  lookup-erase_found,
}
use go_ads.Common.Dict.Measure.{length-erase-le}
use go_ads.Subscriptions.{
  Config, Pending, Active, Manager, Refusal, key_of, set_pending, add_config, append_pending,
  replace_first, raise_registered, bind_handle, mismatched, commit_notification,
  has_live_notification,
}
use go_ads.Subscriptions.Lockstep.{intent, Lockstep, set_pending_lem}

matched :
    (o : Option ℕ) (channel : ℕ) {c : ℕ}
    → o ≡ some c
    → mismatched o channel ≡ false
    → some channel ≡ some c
unfolding mismatched
matched none channel e f = cc
matched (some d) channel e f = ground arith

module _ (symbol_key : Bytes → Bytes) where
  -- Each live handle has a symbol, no two have the same one, all share the channel on file, and the
  -- baseline is at least their number.
  pub record Inv (m : Manager) : Type 0 where
    pub lockstep : Lockstep symbol_key m
    pub handles : IsDict m.active
    pub named :
        (h : ℕ) (a : Active) → lookup h m.active ≡ some a → (n : Bytes) × (a.symbol ≡ some n)
    pub single :
        (h j : ℕ) (a b : Active) (n l : Bytes)
        → lookup h m.active ≡ some a
        → lookup j m.active ≡ some b
        → a.symbol ≡ some n
        → b.symbol ≡ some l
        → symbol_key n ≡ symbol_key l
        → h ≡ j
    pub one_channel : (h : ℕ) (a : Active) → lookup h m.active ≡ some a → m.channel ≡ some a.channel
    pub counted : length m.active ≤ m.registered

  pub set_pending_frame :
      (p : Pending) (m : Manager)
      → ((set_pending symbol_key p m).active ≡ m.active)
        × ((set_pending symbol_key p m).registered ≡ m.registered)
        × ((set_pending symbol_key p m).channel ≡ m.channel)
  unfolding set_pending append_pending
  set_pending_frame p m = ground arith

  pub set_pending_files :
      (p : Pending) (m : Manager)
      → Lockstep symbol_key m
      → has (key_of symbol_key p) (set_pending symbol_key p m).configs_by_key ≡ true
  set_pending_files p m l =
      let (shape, l') = set_pending_lem symbol_key m p l in
      l'.indexed (key_of symbol_key p)
      ∙ ap (has (key_of symbol_key p)) shape
      ∙ has-insert_self (key_of symbol_key p) p (intent symbol_key m.pending)

  -- Where no entry has the symbol, none that is found has it.
  not_live :
      (name : Bytes) (d : Dict ℕ Active) (h : ℕ) (a : Active) (n : Bytes)
      → has_live_notification symbol_key name d ≡ false
      → lookup h d ≡ some a
      → a.symbol ≡ some n
      → eq_text (symbol_key n) (symbol_key name) ≡ false
  unfolding has_live_notification lookup
  not_live name [] h a n f e s = cc
  not_live name ((j, b) ∷ d) h a n f e s = ground (arith, not_live name d h a n)

  -- What binding a handle to a symbol needs: its symbol is not live, and its channel is the one.
  module _ (m : Manager) (v : Inv m) (config : Config) (handle channel : ℕ) (full_name : Bytes)
      (named : symbol_key full_name ≡ symbol_key config.symbol_name)
      (fits : mismatched m.channel channel ≡ false)
      (free : has_live_notification symbol_key config.symbol_name m.active ≡ false) where
    abbrev entry : Active
    entry = record { symbol = some full_name; channel = channel }

    abbrev live' : Dict ℕ Active
    live' = insert handle entry m.active

    clash :
        (j : ℕ) (b : Active) (l : Bytes)
        → lookup j m.active ≡ some b
        → b.symbol ≡ some l
        → symbol_key l ≡ symbol_key full_name
        → ⊥
    clash j b l e s k =
        let p : eq_text (symbol_key l) (symbol_key config.symbol_name) ≡ false =
          not_live config.symbol_name m.active j b l free e s in
        cc (
          ap (λ x. eq_text x (symbol_key config.symbol_name)) (k ∙ named),
          p,
          eq_text_refl (symbol_key config.symbol_name),
        )

    single' :
        (h j : ℕ) (a b : Active) (n l : Bytes)
        → lookup h live' ≡ some a
        → lookup j live' ≡ some b
        → a.symbol ≡ some n
        → b.symbol ≡ some l
        → symbol_key n ≡ symbol_key l
        → h ≡ j
    single' h j a b n l e f s t k =
        both (lookup-insert_found h handle entry m.active e)
          (lookup-insert_found j handle entry m.active f)
      where
        both :
            ((h ≡ handle) × (entry ≡ a)) ⊎ (((h == handle) ≡ false) × (lookup h m.active ≡ some a))
            → ((j ≡ handle) × (entry ≡ b))
              ⊎ (((j == handle) ≡ false) × (lookup j m.active ≡ some b))
            → h ≡ j
        both (inl (p, _)) (inl (q, _)) = p ∙ sym q
        both (inr (_, p)) (inr (_, q)) = v.single h j a b n l p q s t k
        both (inl (_, p)) (inr (_, q)) =
            absurd (clash j b l q t (sym k ∙ ap symbol_key (cc (ap (λ x. x.symbol) p, s))))
        both (inr (_, p)) (inl (_, q)) =
            absurd (clash h a n p s (k ∙ ap symbol_key (cc (ap (λ x. x.symbol) q, t))))

    one_channel' : (h : ℕ) (a : Active) → lookup h live' ≡ some a → some channel ≡ some a.channel
    one_channel' h a e = elim (lookup-insert_found h handle entry m.active e) [
      | inl (_, p) ↦ cc p
      | inr (_, p) ↦ matched m.channel channel (v.one_channel h a p) fits
    ]

    module _ (m' : Manager) (active : m'.active ≡ live') (chan : m'.channel ≡ some channel)
        (lockstep : Lockstep symbol_key m') (counted : length live' ≤ m'.registered) where
      named' : (h : ℕ) (a : Active) → lookup h live' ≡ some a → (n : Bytes) × (a.symbol ≡ some n)
      named' h a e = elim (lookup-insert_found h handle entry m.active e) [
        | inl (_, p) ↦ (full_name, sym (ap (λ x. x.symbol) p))
        | inr (_, p) ↦ v.named h a p
      ]

      insert-Inv : Inv m'
      insert-Inv = record {
        lockstep = lockstep;
        handles = rw active (insert-IsDict handle entry m.active v.handles);
        named = rw active named';
        single = rw active single';
        one_channel = rw (active, chan) one_channel';
        counted = rw active counted;
      }

    abbrev raised : Manager
    raised = raise_registered (record m { active = live' })

    abbrev filed : Pending
    filed = record { config = config; resubscribe_attempts = 0 }

    raised_frame : (raised.active ≡ live') × (length live' ≤ raised.registered)
    unfolding raise_registered
    raised_frame = ground arith

    raised-Lockstep : Lockstep symbol_key raised
    unfolding raise_registered
    raised-Lockstep =
        if-both (Lockstep symbol_key) (ltb m.registered (length live'))
          (record { single = v.lockstep.single; indexed = v.lockstep.indexed })
          (record { single = v.lockstep.single; indexed = v.lockstep.indexed })

    bind_handle-Inv : Inv (bind_handle symbol_key config handle channel full_name m)
    unfolding bind_handle add_config
    bind_handle-Inv =
        let (active, registered, chan) = set_pending_frame filed raised in
        let (shape, l) = set_pending_lem symbol_key raised filed raised-Lockstep in
        let (a, n) = raised_frame in
        insert-Inv _ (active ∙ a) refl (record { single = l.single; indexed = l.indexed })
          (rw registered n)

  -- A commit, refused or not, keeps the bookkeeping in agreement with itself, where the cache has
  -- each symbol under its own key.
  pub commit_notification-Inv :
      (symbols : Dict Bytes Bytes) (same_epoch : Bool) (config : Config) (handle channel : ℕ)
      (m : Manager)
      → ((name full_name : Bytes)
          → lookup (symbol_key name) symbols ≡ some full_name
          → symbol_key full_name ≡ symbol_key name)
      → Inv m
      → Inv (commit_notification symbol_key symbols same_epoch config handle channel m).1
  unfolding commit_notification
  commit_notification-Inv symbols same_epoch config handle channel m cached v =
      if-both (λ (r : Option Refusal × Manager). Inv r.1) (not same_epoch) v
        (elim (Option-cases (lookup (symbol_key config.symbol_name) symbols)) [
          | inl e ↦ rw e v
          | inr (full_name, e) ↦ rw e (elim (Bool-cases (mismatched m.channel channel)) [
            | inl p ↦ rw p v
            | inr p ↦
                rw p
                  (elim (Bool-cases
                    (has_live_notification symbol_key config.symbol_name m.active)) [
                      | inl q ↦ rw q v
                      | inr q ↦ rw q (
                          bind_handle-Inv m v config handle channel full_name
                            (cached config.symbol_name full_name e) p q)
                    ])
          ])
        ])
