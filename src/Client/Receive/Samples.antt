-- ===== src/Client/Receive/Samples.antt =====
-- The laws of the receiving side at concrete packets.
use go_ads.Common.{◌≡◌, List, [], ◌∷◌, ◌++◌, Bytes, arith, none}
use go_ads.Common.Words.{put_le}
use go_ads.Client.Receive.Stream.{decode_notification}
use go_ads.Client.Receive.Stream.Laws.{
  Stamp, put_stream, put_stamps, all_samples, decode_notification-put_stream,
}
use go_ads.Client.Receive.Frames.{Frame, read_frames}
use go_ads.Client.Receive.Frames.Laws.{put_frames, read_frames-put_frames}
use go_ads.Client.Receive.Shards.{notif_worker}
use go_ads.Client.Receive.Shards.Laws.{of_handle, samples_of, notif_worker-of_handle}

abbrev stamp : Stamp
stamp = record { timestamp = 77; samples = (5, 1 ∷ 2 ∷ []) ∷ (6, 3 ∷ []) ∷ [] }

decode_notification-put_stream_example :
    decode_notification (put_stream 33 (stamp ∷ []) ++ (9 ∷ [])) ≡ (all_samples (stamp ∷ []), none)
unfolding put_stamps put_le
decode_notification-put_stream_example =
    decode_notification-put_stream 33 (stamp ∷ []) (9 ∷ []) (omega arith) (omega arith)
      ((omega arith, omega arith, (omega arith, (omega arith, tt))), tt) (omega arith)

abbrev packet : Bytes
packet = 0 ∷ 0 ∷ 0 ∷ 0 ∷ 255 ∷ 255 ∷ 255 ∷ 255 ∷ 1 ∷ 2 ∷ 3 ∷ []

abbrev frames : List Frame
frames =
    record { unknown = 0; system = 0; body = 1 ∷ 2 ∷ [] }
    ∷ record { unknown = 0; system = 1; body = [] }
    ∷ []

read_frames-put_frames_example :
    read_frames (put_frames frames ++ (7 ∷ []))
    ≡ (frames ++ (read_frames (7 ∷ [])).0, (read_frames (7 ∷ [])).1)
read_frames-put_frames_example =
    read_frames-put_frames frames (7 ∷ [])
      ((omega arith, omega arith, omega arith), ((omega arith, omega arith, omega arith), tt))

notif_worker-of_handle_example :
    of_handle 5 (notif_worker (packet ∷ []) (λ i. []) 5) ≡ of_handle 5 (samples_of (packet ∷ []))
notif_worker-of_handle_example = notif_worker-of_handle 5 (packet ∷ []) (λ i. [])
