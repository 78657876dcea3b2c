-- ===== src/Client/Receive/Shards.antt =====
-- `notifWorker` of client.go: the samples of a frame go to the shard of their handle, in order.
-- The shards are a function from their index to what they have been given.
pub mod Laws
use go_ads.Common.{
  ℕ, zero, suc, ◌+◌, ◌-◌, ◌%◌, Bool, true, false, ◌||◌, not, List, [], ◌∷◌, ◌++◌, Bytes, length,
  drop, ltb, ◌==◌, if◌then◌else◌, Result, ok, err, Fault, malformed, Option, none, some,
}
use go_ads.Common.Words.{get_le}
use go_ads.Client.Receive.Stream.{Sample, decode_notification}

abbrev pub notif_shard_count : ℕ
notif_shard_count = 8

abbrev pub Shards : Type 0
Shards = ℕ → List Sample

-- `route`
unfoldable pub route : Sample → Shards → Shards
route s shards i = if i == s.handle % notif_shard_count then shards i ++ (s ∷ []) else shards i

unfoldable pub route_all : List Sample → Shards → Shards
unfolding route
route_all [] shards = shards
route_all (s ∷ ss) shards = route_all ss (route s shards)

-- `binary.LittleEndian.Uint32(data[20:24])`
unfoldable pub frame_length : Bytes → ℕ
frame_length frame = elim (get_le 4 (drop 20 frame)) [ ok p ↦ p.0 | err e ↦ 0 ]

-- A frame off the queue; a malformed one changes nothing.
unfoldable pub notif_frame : Bytes → Shards → Shards
unfolding route_all frame_length
notif_frame frame shards =
    if ltb (length frame) 32 || not (frame_length frame == length frame - 32)
    then shards
    else route_all (decode_notification (drop 32 frame)).0 shards

unfoldable pub notif_worker : List Bytes → Shards → Shards
unfolding notif_frame
notif_worker [] shards = shards
notif_worker (f ∷ fs) shards = notif_worker fs (notif_frame f shards)
