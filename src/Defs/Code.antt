-- ===== src/Defs/Code.antt =====
-- The return codes of defs.go that the code branches on.
use Prim.Native.Nat.{ℕ}

abbrev pub no_errors : ℕ
no_errors = 0x00

abbrev pub unknown_command_id : ℕ
unknown_command_id = 0x08

abbrev pub unknown_ads_command : ℕ
unknown_ads_command = 0x0b

abbrev pub device_error : ℕ
device_error = 0x700

abbrev pub device_service_not_supported : ℕ
device_service_not_supported = 0x701

abbrev pub device_invalid_offset : ℕ
device_invalid_offset = 0x703

abbrev pub device_invalid_size : ℕ
device_invalid_size = 0x705

abbrev pub symbol_no_found : ℕ
symbol_no_found = 0x710

abbrev pub symbol_version_invalid : ℕ
symbol_version_invalid = 0x711

abbrev pub notify_handle_invalid : ℕ
notify_handle_invalid = 0x714

abbrev pub client_unknown : ℕ
client_unknown = 0x715

abbrev pub symbol_not_active : ℕ
symbol_not_active = 0x722
