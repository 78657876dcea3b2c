-- ===== src/Client/Receive/Frames.antt =====
-- `readFrames` of client.go on the bytes that a connection gives before it closes: the frames in
-- the order they were read, and why the loop stops. Cancellation, and that a full queue drops a
-- frame, are the channels' and not modelled.
pub mod Laws
use go_ads.Common.{
  ℕ, zero, suc, ◌+◌, ◌*◌, ◌≡◌, Bool, true, false, ◌&&◌, not, List, [], ◌∷◌, ◌++◌, Bytes, length,
  drop, ltb, ◌==◌, if◌then◌else◌, Result, ok, err, malformed, ◌>>=◌,
}
use go_ads.Common.Words.{get_le, get_bytes}
use go_ads.Defs.Command

-- `amsTCPHeader` and the body; its first byte is not used.
pub record Frame : Type 0 where
  pub unknown : ℕ
  pub system : ℕ
  pub body : Bytes

pub data Stop : Type 0 where
  closed : Stop
  oversized : Stop
  mid_frame : Stop

abbrev pub max_ams_packet : ℕ
max_ams_packet = 4 * 1024 * 1024

unfoldable pub get_tcp_header : Bytes → Result ((ℕ × ℕ × ℕ) × Bytes)
get_tcp_header bs = do
  (unknown, r1) ← get_le 1 bs
  (system, r2) ← get_le 1 r1
  (length, r3) ← get_le 4 r2
  ok ((unknown, system, length), r3)

-- One round: a frame and what follows it, or the end.
pub data Round : Type 0 where
  stop : Stop → Round
  next : Frame → Bytes → Round

unfoldable pub read_frame : Bytes → Round
unfolding get_tcp_header
read_frame bs = elim (get_tcp_header bs) [
  | err e ↦ stop closed
  | ok p ↦
      let ((unknown, system, size), r) = p in
      if ltb max_ams_packet size then stop oversized else elim (get_bytes size r) [
        | err e ↦ stop mid_frame
        | ok q ↦
            let (body, rest) = q in
            next (record { unknown = unknown; system = system; body = body }) rest
      ]
]

-- The loop, on as much fuel as there are bytes; with none left the connection gives no header.
unfoldable pub read_frames_on : ℕ → Bytes → List Frame × Stop
unfolding read_frame
read_frames_on zero bs = ([], closed)
read_frames_on (suc n) bs = elim (read_frame bs) [
  | stop s ↦ ([], s)
  | next f rest ↦ let (fs, s) = read_frames_on n rest in (f ∷ fs, s)
]

unfoldable pub read_frames : Bytes → List Frame × Stop
unfolding read_frames_on
read_frames bs = read_frames_on (length bs) bs

unfoldable pub is_notification_frame : Bytes → Bool
is_notification_frame body =
    not (ltb (length body) 32)
    && elim (get_le 2 (drop 16 body)) [ ok p ↦ p.0 == Command.device_notification | err e ↦ false ]

pub data Destination : Type 0 where
  system_response : Destination
  notif_queue : Destination
  recv_queue : Destination

unfoldable pub destination : Frame → Destination
unfolding is_notification_frame
destination f =
    if ltb 0 f.system
    then system_response
    else if is_notification_frame f.body
    then notif_queue
    else recv_queue
