-- ===== src/Client/Receive/Replies/Laws.antt =====
-- Which request a frame answers, and with what.
use go_ads.Common.{
  ℕ, ◌≡◌, ◌≢◌, refl, false, List, ◌++◌, Bytes, length, drop, arith, ◌==◌, if◌then◌else◌, ltb,
  length-append, drop-append_length, le→ltb-false, ==_refl,
}
use go_ads.Ams.{AmsHeader, encode_ams_header, IsHeader}
use go_ads.Ams.Header.{get_header-encode, length-encode_ams_header}
use go_ads.Defs.Command
use go_ads.Client.Receive.Replies.{delivered, unknown_id, handle_receive, contains}

body-encode_ams_header :
    (h : AmsHeader) (body : Bytes) → drop 32 (encode_ams_header h ++ body) ≡ body
body-encode_ams_header h body =
    rw (length-encode_ams_header h) at (drop-append_length (encode_ams_header h) body)

-- A frame with a command other than a notification's goes to the request with its invoke ID, and
-- to no other: with the payload and the router's code. Where no such request is pending it is
-- discarded.
pub handle_receive_lem :
    (active : List ℕ) (h : AmsHeader) (body : Bytes)
    → IsHeader h
    → h.length_field ≡ length body
    → h.command ≢ Command.device_notification
    → handle_receive active (encode_ams_header h ++ body) ≡ (
        if contains active h.invoke_id
        then delivered h.invoke_id (record { body = body; ams_error = h.error_code })
        else unknown_id h.invoke_id)
unfolding handle_receive
handle_receive_lem active h body f l c =
    let long : ltb (length (encode_ams_header h ++ body)) 32 ≡ false =
      le→ltb-false _ 32
        (omega (arith, length-append (encode_ams_header h) body, length-encode_ams_header h)) in
    let other : (h.command == Command.device_notification) ≡ false = ground (arith, c) in
    rw (long, get_header-encode h body f, body-encode_ams_header h body, l, ==_refl, other) refl
