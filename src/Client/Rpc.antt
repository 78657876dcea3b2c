-- ===== src/Client/Rpc.antt =====
-- The requests of cmd_simple.go and the two notification RPCs of cmd_notification.go.
pub mod Laws
use go_ads.Common.{ℕ, ◌%◌, ◌^◌, Bytes, [], Result, ok, err, malformed}
use go_ads.Common.Words.{put_le}
use go_ads.Common.Decimal.{ℤ}
use go_ads.Defs.{duration_to_ads_ticks}
use go_ads.Defs.Command
use go_ads.Client.Wire.{
  States, DeviceInfo, read_request, write_request, write_read_request, parse_data_response,
  parse_code_response, parse_read_state_response, parse_device_info_response,
  add_notification_request, parse_handle_response,
}
use go_ads.Client.Conn.{Conn, M, ◌>>=◌, ◌>>◌, pure, lift}

module _ {S : Type 0} (ask : ℕ → Bytes → S → Result Bytes × S) where
  -- `sendRequest`
  abbrev pub send_request : ℕ → Bytes → M S Bytes
  send_request command payload c =
      let (r, w) = ask command payload c.world in (r, record c { world = w })

  unfoldable pub read : ℕ → ℕ → ℕ → M S Bytes
  read group offset length = do
    resp ← send_request Command.read (read_request group offset length)
    lift (parse_data_response resp)

  unfoldable pub write : ℕ → ℕ → Bytes → M S (Unit {0})
  write group offset payload = do
    resp ← send_request Command.write (write_request group offset payload)
    lift (parse_code_response resp)

  unfoldable pub write_read : ℕ → ℕ → ℕ → Bytes → M S Bytes
  write_read group offset read_length send = do
    resp ← send_request Command.read_write (write_read_request group offset read_length send)
    lift (parse_data_response resp)

  unfoldable pub read_state : M S States
  read_state = do resp ← send_request Command.read_state []; lift (parse_read_state_response resp)

  unfoldable pub read_device_info : M S DeviceInfo
  read_device_info = do
    resp ← send_request Command.read_device_info []
    lift (parse_device_info_response resp)

  -- The two durations are checked before anything is sent.
  unfoldable pub add_device_notification : ℕ → ℕ → ℕ → ℕ → ℤ → ℤ → M S ℕ
  add_device_notification group offset length mode max_delay cycle_time = do
    max_delay_ticks ← lift (duration_to_ads_ticks max_delay)
    cycle_time_ticks ← lift (duration_to_ads_ticks cycle_time)
    resp ←
        send_request Command.add_device_notification
          (add_notification_request group offset length mode max_delay_ticks cycle_time_ticks)
    lift (parse_handle_response resp)

  unfoldable pub delete_device_notification : ℕ → M S (Unit {0})
  delete_device_notification handle = do
    resp ← send_request Command.delete_device_notification (put_le 4 handle)
    lift (parse_code_response resp)
