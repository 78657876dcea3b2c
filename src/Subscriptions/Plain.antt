-- ===== src/Subscriptions/Plain.antt =====
-- Names of ASCII characters in the bookkeeping of notifications: for those strings.EqualFold and the
-- keys of symbols, which strings.ToLower makes, agree. For others they need not.
use go_ads.Common.{
  ℕ, ◌<◌, ◌≡◌, Bool, ◌&&◌, not, Option, none, some, List, [], ◌∷◌, ◌++◌, Bytes, All, Bool-cases,
  inl, inr, ap, ◌∙◌, Fault, if-both, Option-both, Option-split, length, ltb, ◌==◌,
}
use mathlib.Core.Path.{subst}
use go_ads.Common.Dict.{Dict, ℕ-Key, Bytes-Key, eq_text, lookup, insert, erase, has}
use go_ads.Defs.{is_best_effort_delete_success}
use go_ads.Subscriptions.{
  Config, Pending, Active, Manager, Refusal, key_of, replace_first, append_pending, set_pending,
  add_config, raise_registered, bind_handle, mismatched, has_live_notification, commit_notification,
  restore_entry, restore_configs, remove_first, remove_notification_config,
  take_notification_handles,
}
use go_ads.Subscriptions.Delete.{
  is_best_effort_delete_success_err, after_delete, without_name, clean_up, without_config, forget,
  flush, sum_delete_device_notification,
}

abbrev pub IsAscii : Bytes → Type 0
IsAscii = All (λ b. b < 128)

-- strings.EqualFold and the keys agree on names of ASCII characters.
abbrev pub Folds : (Bytes → Bytes) → (Bytes → Bytes → Bool) → Type 0
Folds symbol_key equal_fold =
    (a b : Bytes) → IsAscii a → IsAscii b → equal_fold a b ≡ eq_text (symbol_key a) (symbol_key b)

-- The entry of a handle has such a name, if any.
abbrev pub PlainEntry : ℕ × Active → Type 0
PlainEntry e = (n : Bytes) → e.1.symbol ≡ some n → IsAscii n

abbrev pub PlainConfig : Pending → Type 0
PlainConfig p = IsAscii p.config.symbol_name

pub record Plain (m : Manager) : Type 0 where
  pub configs : All PlainConfig m.pending
  pub entries : All PlainEntry m.active

pub found-Plain :
    (h : ℕ) (d : Dict ℕ Active) (a : Active) (n : Bytes)
    → All PlainEntry d
    → lookup h d ≡ some a
    → a.symbol ≡ some n
    → IsAscii n
unfolding lookup
found-Plain h [] a n k e s = cc
found-Plain h ((j, b) ∷ d) a n (p, k) e s = elim (Bool-cases (h == j)) [
  | inl q ↦
      let f : some b ≡ some a = rw q at e in let g : b ≡ a = cc in p n (ap (λ x. x.symbol) g ∙ s)
  | inr q ↦ found-Plain h d a n k (rw q at e) s
]

insert-Plain :
    (h : ℕ) (a : Active) (d : Dict ℕ Active)
    → PlainEntry (h, a)
    → All PlainEntry d
    → All PlainEntry (insert h a d)
unfolding insert
insert-Plain h a [] p k = (p, tt)
insert-Plain h a ((j, b) ∷ d) p (q, k) =
    if-both (All PlainEntry) (h == j) (p, k) (q, insert-Plain h a d p k)

pub erase-Plain : (h : ℕ) (d : Dict ℕ Active) → All PlainEntry d → All PlainEntry (erase h d)
unfolding erase
erase-Plain h [] k = tt
erase-Plain h ((j, b) ∷ d) (q, k) =
    if-both (All PlainEntry) (h == j) (erase-Plain h d k) (q, erase-Plain h d k)

append-All :
    (ps : List Pending) (p : Pending)
    → PlainConfig p
    → All PlainConfig ps
    → All PlainConfig (ps ++ (p ∷ []))
append-All [] p q k = (q, tt)
append-All (x ∷ ps) p q (r, k) = (r, append-All ps p q k)

-- Where there is a list, all its entries have such names.
abbrev PlainList : Option (List Pending) → Type 0
PlainList none = Unit {0}
PlainList (some ps) = All PlainConfig ps

cons-PlainList :
    (p : Pending) (o : Option (List Pending))
    → PlainConfig p
    → PlainList o
    → PlainList (elim o as (λ _. Option (List Pending)) [ none ↦ none | some ps ↦ some (p ∷ ps) ])
cons-PlainList p none q k = tt
cons-PlainList p (some ps) q k = (q, k)

raised-Plain : (m : Manager) → Plain m → Plain (raise_registered m)
unfolding raise_registered
raised-Plain m k =
    if-both Plain (ltb m.registered (length m.active))
      (record { configs = k.configs; entries = k.entries }) k

pub take-Plain : (m : Manager) → Plain m → Plain (take_notification_handles m).1
unfolding take_notification_handles
take-Plain m k = record { configs = k.configs; entries = tt }

module _ (symbol_key : Bytes → Bytes) where
  replace_first-Plain :
      (key : Bytes) (p : Pending) (ps : List Pending)
      → PlainConfig p
      → All PlainConfig ps
      → PlainList (replace_first symbol_key key p ps)
  unfolding replace_first
  replace_first-Plain key p [] q k = tt
  replace_first-Plain key p (x ∷ ps) q (r, k) =
      if-both PlainList (eq_text (key_of symbol_key x) key) (q, k)
        (cons-PlainList x (replace_first symbol_key key p ps) r (replace_first-Plain key p ps q k))

  append-Plain :
      (p : Pending) (m : Manager) → PlainConfig p → Plain m → Plain (append_pending symbol_key p m)
  unfolding append_pending
  append-Plain p m q k = record {
    configs = append-All m.pending p q k.configs;
    entries = k.entries;
  }

  replaced-Plain :
      (p : Pending) (m : Manager) (o : Option (List Pending))
      → PlainConfig p
      → Plain m
      → PlainList o
      → Plain (elim o as (λ _. Manager) [
        | none ↦ append_pending symbol_key p m
        | some qs ↦ record m { pending = qs }
      ])
  replaced-Plain p m none q k h = append-Plain p m q k
  replaced-Plain p m (some qs) q k h = record { configs = h; entries = k.entries }

  pub set_pending-Plain :
      (p : Pending) (m : Manager) → PlainConfig p → Plain m → Plain (set_pending symbol_key p m)
  unfolding set_pending
  set_pending-Plain p m q k =
      if-both Plain (has (key_of symbol_key p) m.configs_by_key)
        (replaced-Plain p m (replace_first symbol_key (key_of symbol_key p) p m.pending) q k
          (replace_first-Plain (key_of symbol_key p) p m.pending q k.configs))
        (append-Plain p m q k)

  pub restore_configs-Plain :
      (ps : List Pending) (m : Manager)
      → All PlainConfig ps
      → Plain m
      → Plain (restore_configs symbol_key ps m)
  unfolding restore_configs restore_entry
  restore_configs-Plain [] m q k = k
  restore_configs-Plain (p ∷ ps) m (q, qs) k =
      restore_configs-Plain ps _ qs
        (if-both Plain (has (key_of symbol_key p) m.configs_by_key) k (set_pending-Plain p m q k))

  pub bind_handle-Plain :
      (config : Config) (handle channel : ℕ) (full_name : Bytes) (m : Manager)
      → IsAscii config.symbol_name
      → IsAscii full_name
      → Plain m
      → Plain (bind_handle symbol_key config handle channel full_name m)
  unfolding bind_handle add_config
  bind_handle-Plain config handle channel full_name m c f k =
      let named : (n : Bytes) → some full_name ≡ some n → IsAscii n =
        λ n e. let g : full_name ≡ n = cc in subst IsAscii g f in
      let bound : Manager = record m {
        active = insert handle (record { symbol = some full_name; channel = channel }) m.active;
      } in
      let p : Pending = record { config = config; resubscribe_attempts = 0 } in
      let filed = set_pending-Plain p (raise_registered bound) c (
        raised-Plain bound (record {
          configs = k.configs;
          entries = insert-Plain handle _ m.active named k.entries;
        })) in
      record { configs = filed.configs; entries = filed.entries }

  -- Where the name of the config and those of the cache are such.
  pub commit_notification-Plain :
      (symbols : Dict Bytes Bytes) (same_epoch : Bool) (config : Config) (handle channel : ℕ)
      (m : Manager)
      → IsAscii config.symbol_name
      → ((name full_name : Bytes)
          → lookup (symbol_key name) symbols ≡ some full_name
          → IsAscii full_name)
      → Plain m
      → Plain (commit_notification symbol_key symbols same_epoch config handle channel m).1
  unfolding commit_notification
  commit_notification-Plain symbols same_epoch config handle channel m c cached k =
      let P = λ (r : Option Refusal × Manager). Plain r.1 in
      if-both P (not same_epoch) k (
        Option-split P (lookup (symbol_key config.symbol_name) symbols) (λ _. k)
          (λ full_name e. if-both P (mismatched m.channel channel) k (
            if-both P (has_live_notification symbol_key config.symbol_name m.active) k (
              bind_handle-Plain config handle channel full_name m c
                (cached config.symbol_name full_name e) k))))

  module _ (equal_fold : Bytes → Bytes → Bool) where
    remove_first-Plain :
        (name : Bytes) (ps : List Pending)
        → All PlainConfig ps
        → All PlainConfig (remove_first symbol_key equal_fold name ps)
    unfolding remove_first
    remove_first-Plain name [] k = tt
    remove_first-Plain name (p ∷ ps) (q, k) =
        if-both (All PlainConfig) (equal_fold p.config.symbol_name name) k
          (q, remove_first-Plain name ps k)

    pub removed-Plain :
        (name : Bytes) (m : Manager)
        → Plain m
        → Plain (remove_notification_config symbol_key equal_fold name m)
    unfolding remove_notification_config
    removed-Plain name m k =
        if-both Plain (not (has (symbol_key name) m.configs_by_key)) k
          (record { configs = remove_first-Plain name m.pending k.configs; entries = k.entries })

    pub after_delete-Plain :
        (handle : ℕ) (name : Bytes) (ours : Bool) (outcome : Option Fault) (m : Manager)
        → Plain m
        → Plain (after_delete symbol_key equal_fold handle (name, ours) outcome m)
    unfolding after_delete clean_up without_name
    after_delete-Plain handle name ours outcome m k =
        let n = if-both Plain (length name == 0) k (removed-Plain name m k) in
        if-both Plain (is_best_effort_delete_success_err outcome)
          (record { configs = n.configs; entries = erase-Plain handle _ n.entries }) k

    pub forget-Plain :
        (teardown : Bool) (handle : ℕ) (m : Manager)
        → Plain m
        → Plain (forget symbol_key equal_fold teardown handle m)
    unfolding forget without_config
    forget-Plain teardown handle m k =
        let n =
          Option-both Plain (lookup handle m.active) k
            (λ a. Option-both Plain a.symbol k (λ full_name. removed-Plain full_name m k)) in
        record { configs = n.configs; entries = erase-Plain handle _ n.entries }

    flush-Plain :
        (teardown : Bool) (hs codes : List ℕ) (m : Manager)
        → Plain m
        → Plain (flush symbol_key equal_fold teardown hs codes m)
    unfolding flush
    flush-Plain teardown (h ∷ hs) (code ∷ codes) m k =
        flush-Plain teardown hs codes _
          (if-both Plain (is_best_effort_delete_success code) (forget-Plain teardown h m k) k)
    flush-Plain teardown _ _ m k = k

    pub sum_delete-Plain :
        (teardown : Bool) (hs codes : List ℕ) (m : Manager)
        → Plain m
        → Plain (sum_delete_device_notification symbol_key equal_fold teardown hs codes m)
    unfolding sum_delete_device_notification
    sum_delete-Plain teardown hs [] m k = k
    sum_delete-Plain teardown hs (code ∷ codes) m k =
        let f = flush-Plain teardown hs (code ∷ codes) m k in
        if-both Plain
          (teardown
            && length (flush symbol_key equal_fold teardown hs (code ∷ codes) m).active == 0)
          (record { configs = f.configs; entries = f.entries }) f
