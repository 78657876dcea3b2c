-- ===== src/Client/Wire.antt =====
-- The bytes of the requests and responses of cmd_simple.go and of the two notification RPCs of
-- cmd_notification.go.
pub mod Laws
use go_ads.Common.{
  ℕ, ◌+◌, ◌%◌, ◌^◌, Bytes, [], ◌∷◌, ◌++◌, length, take, drop, replicate, ltb, not, ◌==◌,
  if◌then◌else◌, Result, ok, err, device, malformed, ◌>>=◌,
}
use go_ads.Common.Words.{put_le, get_le, get_bytes}

unfoldable pub read_request : ℕ → ℕ → ℕ → Bytes
read_request group offset length = put_le 4 group ++ (put_le 4 offset ++ put_le 4 length)

-- `uint32(len(data))`
unfoldable pub write_request : ℕ → ℕ → Bytes → Bytes
write_request group offset payload =
    put_le 4 group ++ (put_le 4 offset ++ (put_le 4 (length payload % 2 ^ 32) ++ payload))

unfoldable pub write_read_request : ℕ → ℕ → ℕ → Bytes → Bytes
write_read_request group offset read_length send =
    put_le 4 group
    ++ (put_le 4 offset ++ (put_le 4 read_length ++ (put_le 4 (length send % 2 ^ 32) ++ send)))

-- The response of Read and of ReadWrite: a code, a length and at least so many bytes.
unfoldable pub parse_data_response : Bytes → Result Bytes
parse_data_response resp = do
  (error, r1) ← get_le 4 resp
  (declared, r2) ← get_le 4 r1
  if ltb 0 error
      then err (device error)
      else if ltb (length r2) declared
      then err malformed
      else ok (take declared r2)

-- The response of Write and of DeleteDeviceNotification: a code.
unfoldable pub parse_code_response : Bytes → Result (Unit {0})
parse_code_response resp = do
  (error, rest) ← get_le 4 resp
  if ltb 0 error then err (device error) else ok tt

pub record States : Type 0 where
  pub ads_state : ℕ  -- uint16
  pub device_state : ℕ  -- uint16

unfoldable pub parse_read_state_response : Bytes → Result States
parse_read_state_response resp = do
  (error, r1) ← get_le 4 resp
  (ads_state, r2) ← get_le 2 r1
  (device_state, r3) ← get_le 2 r2
  if ltb 0 error
      then err (device error)
      else ok (record { ads_state = ads_state; device_state = device_state })

pub record DeviceInfo : Type 0 where
  pub major : ℕ  -- uint8
  pub minor : ℕ  -- uint8
  pub version : ℕ  -- uint16
  pub device_name : Bytes  -- [16]byte

unfoldable pub parse_device_info_response : Bytes → Result DeviceInfo
parse_device_info_response resp = if not (length resp == 24) then err malformed else do
  (error, r1) ← get_le 4 resp
  (major, r2) ← get_le 1 r1
  (minor, r3) ← get_le 1 r2
  (version, r4) ← get_le 2 r3
  (device_name, r5) ← get_bytes 16 r4
  if ltb 0 error
      then err (device error)
      else ok
          (record { major = major; minor = minor; version = version; device_name = device_name })

-- The last 16 bytes are reserved.
unfoldable pub add_notification_request : ℕ → ℕ → ℕ → ℕ → ℕ → ℕ → Bytes
add_notification_request group offset length mode max_delay cycle_time =
    put_le 4 group
    ++ (put_le 4 offset
        ++ (put_le 4 length
            ++ (put_le 4 mode ++ (put_le 4 max_delay ++ (put_le 4 cycle_time ++ replicate 16 0)))))

unfoldable pub parse_handle_response : Bytes → Result ℕ
parse_handle_response resp = do
  (error, r1) ← get_le 4 resp
  (handle, r2) ← get_le 4 r1
  if not (error == 0) then err (device error) else ok handle
