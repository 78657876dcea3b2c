-- ===== src/Defs/Command.antt =====
-- The command numbers of defs.go.
use Prim.Native.Nat.{ℕ}

abbrev pub read_device_info : ℕ
read_device_info = 1

abbrev pub read : ℕ
read = 2

abbrev pub write : ℕ
write = 3

abbrev pub read_state : ℕ
read_state = 4

abbrev pub add_device_notification : ℕ
add_device_notification = 6

abbrev pub delete_device_notification : ℕ
delete_device_notification = 7

abbrev pub device_notification : ℕ
device_notification = 8

abbrev pub read_write : ℕ
read_write = 9
