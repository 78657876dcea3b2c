-- ===== src/Subscriptions.antt =====
-- The bookkeeping of notifications: `notificationManager` of notification_api.go and the methods
-- of Session that change it, in notification_api.go and cmd_notification.go. Each function is one
-- critical section of `notifications.lock`. `symbolKey` and `strings.EqualFold` are parameters;
-- a channel is a number.
pub mod Lockstep
pub mod Plain
pub mod Configs
pub mod Delete
pub mod Inv
pub mod History
pub mod Window
pub mod Dispatch
pub mod Batch
pub mod Orphans
pub mod Single
mod Samples
use go_ads.Common.{
  ℕ, ◌+◌, Bool, true, false, ◌&&◌, ◌||◌, not, Option, none, some, List, [], ◌∷◌, ◌++◌, Bytes,
  length, ltb, ◌==◌, if◌then◌else◌,
}
use go_ads.Common.Dict.{Dict, ℕ-Key, Bytes-Key, eq_text, lookup, has, insert, erase}

-- The fields of NotificationConfig that a subscription is made from.
pub record Config : Type 0 where
  pub symbol_name : Bytes
  pub mode : ℕ
  pub max_delay : ℕ
  pub cycle_time : ℕ

-- pendingNotification
pub record Pending : Type 0 where
  pub config : Config
  pub resubscribe_attempts : ℕ

-- activeNotification; of its symbol, which may be nil, the full name.
pub record Active : Type 0 where
  pub symbol : Option Bytes
  pub channel : ℕ

pub record Manager : Type 0 where
  pub active : Dict ℕ Active  -- activeNotifications
  pub pending : List Pending
  pub configs_by_key : Dict Bytes (Unit {0})
  pub channel : Option ℕ  -- notificationChannel
  pub registered : ℕ
  pub heartbeat_handle : ℕ

-- Why a batch did not commit an entry.
pub data Refusal : Type 0 where
  duplicate channel_mismatch symbol_vanished stranded_by_reload : Refusal

unfoldable pub raise_registered : Manager → Manager
raise_registered m =
    if ltb m.registered (length m.active) then record m { registered = length m.active } else m

unfoldable pub lower_registered_to : ℕ → Manager → Manager
lower_registered_to n m = if ltb n m.registered then record m { registered = n } else m

unfoldable pub subscription_gap : Manager → ℕ × ℕ
subscription_gap m = (m.registered, length m.active)

-- `notificationChannel != nil && notificationChannel != ch`
unfoldable pub mismatched : Option ℕ → ℕ → Bool
mismatched none channel = false
mismatched (some c) channel = not (c == channel)

-- takeNotificationHandles; the clocks that it restarts are left out.
unfoldable pub handles : Dict ℕ Active → List ℕ
handles [] = []
handles ((h, _) ∷ d) = h ∷ handles d

unfoldable pub take_notification_handles : Manager → List ℕ × Manager
take_notification_handles m = (
  handles m.active ++ (if not (m.heartbeat_handle == 0) then m.heartbeat_handle ∷ [] else []),
  record m { active = []; heartbeat_handle = 0 },
)

module _ (symbol_key : Bytes → Bytes) where
  abbrev pub key_of : Pending → Bytes
  key_of p = symbol_key p.config.symbol_name

  -- `pending[i] = p` at the first entry with the key
  unfoldable pub replace_first : Bytes → Pending → List Pending → Option (List Pending)
  replace_first key p [] = none
  replace_first key p (q ∷ qs) =
      let rest = replace_first key p qs in
      if eq_text (key_of q) key
      then some (p ∷ qs)
      else elim rest [ none ↦ none | some qs' ↦ some (q ∷ qs') ]

  unfoldable pub append_pending : Pending → Manager → Manager
  append_pending p m = record m {
    pending = m.pending ++ (p ∷ []);
    configs_by_key = insert (key_of p) tt m.configs_by_key;
  }

  unfoldable pub set_pending : Pending → Manager → Manager
  set_pending p m =
      if has (key_of p) m.configs_by_key
      then (elim (replace_first (key_of p) p m.pending) [
        | none ↦ append_pending p m
        | some qs ↦ record m { pending = qs }
      ])
      else append_pending p m

  unfoldable pub add_config : Config → Manager → Manager
  add_config c m = set_pending (record { config = c; resubscribe_attempts = 0 }) m

  unfoldable pub has_config : Bytes → Manager → Bool
  has_config name m = has (symbol_key name) m.configs_by_key

  -- resetConfigs
  unfoldable pub index_keys : List Pending → Dict Bytes (Unit {0}) → Dict Bytes (Unit {0})
  index_keys [] d = d
  index_keys (p ∷ ps) d = index_keys ps (insert (key_of p) tt d)

  unfoldable pub reset_configs : List Pending → Manager → Manager
  reset_configs ps m = record m { pending = ps; configs_by_key = index_keys ps [] }

  -- An entry that is on file is newer than the snapshot.
  unfoldable pub restore_entry : Pending → Manager → Manager
  restore_entry p m = if has (key_of p) m.configs_by_key then m else set_pending p m

  unfoldable pub restore_configs : List Pending → Manager → Manager
  restore_configs [] m = m
  restore_configs (p ∷ ps) m = restore_configs ps (restore_entry p m)

  unfoldable pub has_live_notification : Bytes → Dict ℕ Active → Bool
  has_live_notification name [] = false
  has_live_notification name ((_, a) ∷ d) =
      let rest = has_live_notification name d in
      elim a.symbol [
        | none ↦ rest
        | some full_name ↦ if eq_text (symbol_key full_name) (symbol_key name) then true else rest
      ]

  -- commitNotification, with the symbol cache that it re-reads, and what the batch and the session
  -- know of the epoch. AddSymbolNotification commits by the same steps.
  unfoldable pub bind_handle : Config → ℕ → ℕ → Bytes → Manager → Manager
  bind_handle config handle channel full_name m =
      let bound = record m {
        active = insert handle (record { symbol = some full_name; channel = channel }) m.active;
      } in
      let filed = add_config config (raise_registered bound) in
      record filed { channel = some channel }

  unfoldable pub commit_notification :
      Dict Bytes Bytes → Bool → Config → ℕ → ℕ → Manager → Option Refusal × Manager
  commit_notification symbols same_epoch config handle channel m =
      if not same_epoch
      then (some stranded_by_reload, m)
      else (elim (lookup (symbol_key config.symbol_name) symbols) [
        | none ↦ (some symbol_vanished, m)
        | some full_name ↦
            if mismatched m.channel channel
            then (some channel_mismatch, m)
            else if has_live_notification config.symbol_name m.active
            then (some duplicate, m)
            else (none, bind_handle config handle channel full_name m)
      ])

  unfoldable pub live_notification_names : Dict ℕ Active → Dict Bytes (Unit {0})
  live_notification_names [] = []
  live_notification_names ((_, a) ∷ d) =
      let rest = live_notification_names d in
      elim a.symbol [ none ↦ rest | some full_name ↦ insert (symbol_key full_name) tt rest ]

  module _ (equal_fold : Bytes → Bytes → Bool) where
    unfoldable pub remove_first : Bytes → List Pending → List Pending
    remove_first name [] = []
    remove_first name (q ∷ qs) =
        if equal_fold q.config.symbol_name name then qs else q ∷ remove_first name qs

    unfoldable pub remove_notification_config : Bytes → Manager → Manager
    remove_notification_config name m =
        if not (has (symbol_key name) m.configs_by_key) then m else record m {
          configs_by_key = erase (symbol_key name) m.configs_by_key;
          pending = remove_first name m.pending;
        }
