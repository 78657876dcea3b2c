-- ===== src/Client/ProcessImage.antt =====
-- process_image.go: the bytes and bits of the process image.
pub mod Laws
mod Samples
use go_ads.Common.{
  ℕ, ◌+◌, ◌*◌, ◌^◌, Bool, not, [], ◌∷◌, Bytes, ltb, leb, ◌==◌, if◌then◌else◌, Result, ok, err,
  malformed,
}
use go_ads.Common.Words.{get_le}
use go_ads.Defs.Group
use go_ads.Client.Conn.{M, ◌>>=◌, lift}
use go_ads.Client.Rpc.{read, write}

-- `uint64(byteOffset)*8 + uint64(bitIndex)` of a byte offset of 32 bits
unfoldable pub bit_address : ℕ → ℕ → Result ℕ
bit_address byte_offset bit_index =
    if ltb 7 bit_index
    then err malformed
    else if leb (2 ^ 32) (byte_offset * 8 + bit_index)
    then err malformed
    else ok (byte_offset * 8 + bit_index)

unfoldable pub first_is_set : Bytes → Result Bool
first_is_set [] = err malformed
first_is_set (b ∷ _) = ok (not (b == 0))

unfoldable pub get_size : Bytes → Result ℕ
get_size bs = elim (get_le 4 bs) [ err _ ↦ err malformed | ok (n, _) ↦ ok n ]

module _ {S : Type 0} (ask : ℕ → Bytes → S → Result Bytes × S) where
  unfoldable pub read_process_input : ℕ → ℕ → M S Bytes
  read_process_input byte_offset length = read ask Group.io_image_rwib byte_offset length

  unfoldable pub read_process_output : ℕ → ℕ → M S Bytes
  read_process_output byte_offset length = read ask Group.io_image_rwob byte_offset length

  unfoldable pub write_process_output : ℕ → Bytes → M S (Unit {0})
  write_process_output byte_offset body = write ask Group.io_image_rwob byte_offset body

  unfoldable pub read_process_input_bit : ℕ → ℕ → M S Bool
  read_process_input_bit byte_offset bit_index = do
    address ← lift (bit_address byte_offset bit_index)
    body ← read ask Group.io_image_rwix address 1
    lift (first_is_set body)

  unfoldable pub write_process_output_bit : ℕ → ℕ → Bool → M S (Unit {0})
  write_process_output_bit byte_offset bit_index value = do
    address ← lift (bit_address byte_offset bit_index)
    write ask Group.io_image_rwox address ((if value then 1 else 0) ∷ [])

  unfoldable pub read_process_input_size : M S ℕ
  read_process_input_size = do body ← read ask Group.io_image_risize 0 4; lift (get_size body)

  unfoldable pub clear_process_inputs : M S (Unit {0})
  clear_process_inputs = write ask Group.io_image_cleari 0 (0 ∷ [])

  unfoldable pub clear_process_outputs : M S (Unit {0})
  clear_process_outputs = write ask Group.io_image_clearo 0 (0 ∷ [])
