-- ===== src/Defs/Group.antt =====
-- The index groups of defs.go that the code sends.
use Prim.Native.Nat.{ℕ}

abbrev pub symbol_handle_by_name : ℕ
symbol_handle_by_name = 0xf003

abbrev pub symbol_value_by_handle : ℕ
symbol_value_by_handle = 0xf005

abbrev pub symbol_release_handle : ℕ
symbol_release_handle = 0xf006

abbrev pub symbol_info_by_name_ex : ℕ
symbol_info_by_name_ex = 0xf009

abbrev pub symbol_upload : ℕ
symbol_upload = 0xf00b

abbrev pub symbol_data_type_upload : ℕ
symbol_data_type_upload = 0xf00e

abbrev pub sumup_write : ℕ
sumup_write = 0xf081

abbrev pub sumup_read_ex : ℕ
sumup_read_ex = 0xf083

abbrev pub sumup_read_ex2 : ℕ
sumup_read_ex2 = 0xf084

abbrev pub sumup_add_notification : ℕ
sumup_add_notification = 0xf085

abbrev pub sumup_delete_notification : ℕ
sumup_delete_notification = 0xf086

abbrev pub io_image_rwib : ℕ
io_image_rwib = 0xf020

abbrev pub io_image_rwix : ℕ
io_image_rwix = 0xf021

abbrev pub io_image_risize : ℕ
io_image_risize = 0xf025

abbrev pub io_image_rwob : ℕ
io_image_rwob = 0xf030

abbrev pub io_image_rwox : ℕ
io_image_rwox = 0xf031

abbrev pub io_image_cleari : ℕ
io_image_cleari = 0xf040

abbrev pub io_image_clearo : ℕ
io_image_clearo = 0xf050
