-- ===== src/Client/Receive/Replies.antt =====
-- `handleReceive` of client.go and `amsReply` of transport.go. The pending requests are the list
-- of their invoke IDs.
pub mod Laws
use go_ads.Common.{
  ℕ, Bool, true, false, ◌||◌, not, List, [], ◌∷◌, Bytes, length, drop, ltb, ◌==◌, if◌then◌else◌,
  Result, ok, err, Fault, router, Option,
}
use go_ads.Ams.{AmsHeader, get_header, ams_header_size}
use go_ads.Defs.Command
use go_ads.Client.Receive.Stream.{Sample, decode_notification}

pub record AmsReply : Type 0 where
  pub body : Bytes  -- data
  pub ams_error : ℕ

-- A router's error is not a device's: nothing is read from the body then.
unfoldable pub payload : AmsReply → Result Bytes
payload r = if not (r.ams_error == 0) then err (router r.ams_error) else ok r.body

pub data Received : Type 0 where
  dropped : Received
  notified : List Sample × Option Fault → Received
  delivered : ℕ → AmsReply → Received
  unknown_id : ℕ → Received

unfoldable pub contains : List ℕ → ℕ → Bool
contains [] i = false
contains (x ∷ xs) i = x == i || contains xs i

unfoldable pub handle_receive : List ℕ → Bytes → Received
unfolding contains
handle_receive active frame =
    let body = drop 32 frame in
    if ltb (length frame) 32 then dropped else elim (get_header frame) [
      | err e ↦ dropped
      | ok p ↦
          let header = p.0 in
          if not (length body == header.length_field)
          then dropped
          else if header.command == Command.device_notification
          then notified (decode_notification body)
          else if contains active header.invoke_id
          then delivered header.invoke_id (record { body = body; ams_error = header.error_code })
          else unknown_id header.invoke_id
    ]
