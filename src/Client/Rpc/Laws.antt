-- ===== src/Client/Rpc/Laws.antt =====
-- The requests of cmd_simple.go and what has been detected of the PLC.
use go_ads.Common.{ℕ, ◌≡◌, Bytes, arith, Result}
use go_ads.Common.Decimal.{ℤ}
use go_ads.Client.Conn.{Conn}
use go_ads.Client.Rpc.{read, write, write_read, add_device_notification, delete_device_notification}

module _ {S : Type 0} (ask : ℕ → Bytes → S → Result Bytes × S) (c : Conn S) where
  pub read-caps : (g o l : ℕ) → (read ask g o l c).1.caps ≡ c.caps
  unfolding read
  read-caps g o l = ground arith

  pub write-caps : (g o : ℕ) (b : Bytes) → (write ask g o b c).1.caps ≡ c.caps
  unfolding write
  write-caps g o b = ground arith

  pub write_read-caps : (g o l : ℕ) (b : Bytes) → (write_read ask g o l b c).1.caps ≡ c.caps
  unfolding write_read
  write_read-caps g o l b = ground arith

  pub add_device_notification-caps :
      (g o l m : ℕ) (d t : ℤ) → (add_device_notification ask g o l m d t c).1.caps ≡ c.caps
  unfolding add_device_notification
  add_device_notification-caps g o l m d t = ground arith

  pub delete_device_notification-caps :
      (h : ℕ) → (delete_device_notification ask h c).1.caps ≡ c.caps
  unfolding delete_device_notification
  delete_device_notification-caps h = ground arith
