-- ===== src/Client/Sum/Samples.antt =====
-- The laws of the batched writes and notification commands at concrete batches.
use go_ads.Common.{ℕ, ◌≡◌, [], ◌∷◌, ◌++◌, Bytes, ◌==◌, if◌then◌else◌, Result, ok, err, transport}
use go_ads.Common.Words.{put_le}
use go_ads.Common.Decimal.{pos}
use go_ads.Defs.Command
use go_ads.Client.Conn.{Conn, unchecked}
use go_ads.Client.Sum.Notify.{NotificationRequest, sum_add_device_notification}
use go_ads.Client.Sum.Notify.Laws.{Calls, note, beside, numbered, sum_add_calls}

abbrev W : Type 0
W = Unit {0}

-- A PLC that takes single writes and Adds, a runtime that is gone for anything else.
abbrev serve : ℕ → Bytes → W → Result Bytes × W
serve command payload w = (
  if command == Command.write
      then ok (put_le 4 0)
      else if command == Command.add_device_notification
      then ok (put_le 4 0 ++ put_le 4 17)
      else err transport,
  w,
)

abbrev subscription : NotificationRequest
subscription = record {
  group = 0x4020;
  offset = 8;
  length = 2;
  mode = 4;
  max_delay = pos 0;
  cycle_time = pos 10000000;
}

abbrev noted : Conn (W × Calls)
noted = record { caps = record unchecked { sum_add_notif_state = 2 }; world = (tt, []) }

sum_add_calls_example :
    (sum_add_device_notification
      (beside serve)
      note
      (subscription ∷ subscription ∷ [])
      noted).1.world.1
    ≡ numbered 0
        (sum_add_device_notification
          (beside serve)
          note
          (subscription ∷ subscription ∷ [])
          noted).0.results
sum_add_calls_example = sum_add_calls serve (subscription ∷ subscription ∷ []) noted
