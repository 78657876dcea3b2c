-- ===== src/Subscriptions/Delete.antt =====
-- The deletion of notifications: `DeleteDeviceNotification` and `sumDeleteDeviceNotification` of
-- Session in cmd_notification.go, with what the PLC has answered as an argument.
use go_ads.Common.{
  ℕ, Bool, true, false, ◌&&◌, ◌||◌, Option, none, some, List, [], ◌∷◌, Bytes, length, ◌==◌,
  if◌then◌else◌, Fault, device,
}
use go_ads.Defs.Code
use go_ads.Defs.{is_best_effort_delete_success}
use go_ads.Common.Dict.{ℕ-Key, lookup, has, erase}
use go_ads.Subscriptions.{Manager, remove_notification_config}

-- Errors that say that the handle is gone. A router's error is no ReturnCode.
unfoldable pub is_best_effort_delete_success_err : Option Fault → Bool
is_best_effort_delete_success_err none = true
is_best_effort_delete_success_err (some (device code)) =
    code == Code.notify_handle_invalid || code == Code.client_unknown
is_best_effort_delete_success_err (some _) = false

-- DeleteDeviceNotification: what it reads of the handle before the request, and what it does once
-- the PLC has confirmed that the handle is gone.
unfoldable pub name_of : ℕ → Manager → Bytes
name_of handle m = elim (lookup handle m.active) [
  | none ↦ []
  | some a ↦ elim a.symbol [ none ↦ [] | some full_name ↦ full_name ]
]

-- The name, and whether the handle is the session's.
abbrev pub look_up : ℕ → Manager → Bytes × Bool
look_up handle m = (name_of handle m, has handle m.active)

module _ (symbol_key : Bytes → Bytes) (equal_fold : Bytes → Bytes → Bool) where
  unfoldable pub without_name : Bytes → Manager → Manager
  without_name name m =
      if length name == 0 then m else remove_notification_config symbol_key equal_fold name m

  unfoldable pub clean_up : ℕ → Bytes → Bool → Manager → Manager
  clean_up handle name ours m =
      let named = without_name name m in
      let active = erase handle named.active in
      record named {
        active = active;
        registered = length active;
        channel = if ours && length active == 0 then none else named.channel;
      }

  -- The second critical section, with what the first has read, whenever that was.
  unfoldable pub after_delete : ℕ → Bytes × Bool → Option Fault → Manager → Manager
  after_delete handle (name, ours) outcome m =
      if is_best_effort_delete_success_err outcome then clean_up handle name ours m else m

  -- Between the two others go on, while the request is out.
  unfoldable pub delete_device_notification :
      ℕ → Option Fault → (Manager → Manager) → Manager → Option Fault × Manager
  unfolding after_delete
  delete_device_notification handle outcome meanwhile m =
      (outcome, after_delete handle (look_up handle m) outcome (meanwhile m))

  -- sumDeleteDeviceNotification, given the codes that the PLC has answered.
  unfoldable pub without_config : ℕ → Manager → Manager
  without_config handle m = elim (lookup handle m.active) [
    | none ↦ m
    | some a ↦ elim a.symbol [
      | none ↦ m
      | some full_name ↦ remove_notification_config symbol_key equal_fold full_name m
    ]
  ]

  unfoldable pub forget : Bool → ℕ → Manager → Manager
  forget user_teardown handle m =
      let named = without_config handle m in
      let active = erase handle named.active in
      record named {
        active = active;
        registered = if user_teardown then length active else named.registered;
      }

  unfoldable pub flush : Bool → List ℕ → List ℕ → Manager → Manager
  flush user_teardown (h ∷ hs) (code ∷ codes) m =
      let next = if is_best_effort_delete_success code then forget user_teardown h m else m in
      flush user_teardown hs codes next
  flush user_teardown _ _ m = m

  unfoldable pub sum_delete_device_notification : Bool → List ℕ → List ℕ → Manager → Manager
  sum_delete_device_notification user_teardown hs [] m = m
  sum_delete_device_notification user_teardown hs (code ∷ codes) m =
      let flushed = flush user_teardown hs (code ∷ codes) m in
      if user_teardown && length flushed.active == 0
      then record flushed { channel = none }
      else flushed
