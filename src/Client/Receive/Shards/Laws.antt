-- ===== src/Client/Receive/Shards/Laws.antt =====
-- The order in which `notifWorker` of client.go hands on samples.
use go_ads.Common.{
  ℕ, ◌-◌, ◌%◌, ◌≡◌, refl, sym, ◌||◌, not, List, [], ◌∷◌, ◌++◌, append_assoc, append-nil, Bytes,
  length, drop, ltb, ◌==◌, if◌then◌else◌, arith,
}
use go_ads.Client.Receive.Stream.{Sample, decode_notification}
use go_ads.Client.Receive.Shards.{
  Shards, notif_shard_count, route, route_all, frame_length, notif_frame, notif_worker,
}

-- The samples of one handle.
abbrev pub of_handle : ℕ → List Sample → List Sample
of_handle h [] = []
of_handle h (s ∷ ss) = if s.handle == h then s ∷ of_handle h ss else of_handle h ss

of_handle-append :
    (h : ℕ) (xs ys : List Sample) → of_handle h (xs ++ ys) ≡ of_handle h xs ++ of_handle h ys
of_handle-append h [] ys = refl
of_handle-append h (x ∷ xs) ys = let rec = of_handle-append h xs ys in ground (arith, rec)

-- The samples of the well-formed frames, in the order of their arrival.
unfoldable pub samples_of : List Bytes → List Sample
unfolding frame_length
samples_of [] = []
samples_of (f ∷ fs) =
    if ltb (length f) 32 || not (frame_length f == length f - 32)
    then samples_of fs
    else (decode_notification (drop 32 f)).0 ++ samples_of fs

route-of_handle :
    (h : ℕ) (s : Sample) (shards : Shards)
    → of_handle h (route s shards (h % notif_shard_count))
      ≡ of_handle h (shards (h % notif_shard_count)) ++ of_handle h (s ∷ [])
unfolding route
route-of_handle h s shards =
    let kept = shards (h % notif_shard_count) in
    ground (arith, of_handle-append h kept (s ∷ []), append-nil (of_handle h kept))

route_all-of_handle :
    (h : ℕ) (ss : List Sample) (shards : Shards)
    → of_handle h (route_all ss shards (h % notif_shard_count))
      ≡ of_handle h (shards (h % notif_shard_count)) ++ of_handle h ss
unfolding route_all
route_all-of_handle h [] shards = sym (append-nil _)
route_all-of_handle h (s ∷ ss) shards =
    let kept = of_handle h (shards (h % notif_shard_count)) in
    let rec = route_all-of_handle h ss (route s shards) in
    ground (
      arith,
      rec,
      route-of_handle h s shards,
      append-nil kept,
      append_assoc kept (s ∷ []) (of_handle h ss),
    )

-- Whatever the frames, the shard of a handle is given that handle's samples in the order they
-- arrived, none missing and none twice.
pub notif_worker-of_handle :
    (h : ℕ) (fs : List Bytes) (shards : Shards)
    → of_handle h (notif_worker fs shards (h % notif_shard_count))
      ≡ of_handle h (shards (h % notif_shard_count)) ++ of_handle h (samples_of fs)
unfolding notif_worker notif_frame samples_of
notif_worker-of_handle h [] shards = sym (append-nil _)
notif_worker-of_handle h (f ∷ fs) shards =
    let kept = of_handle h (shards (h % notif_shard_count)) in
    let more = (decode_notification (drop 32 f)).0 in
    let rest = samples_of fs in
    ground (
      arith,
      notif_worker-of_handle h fs shards,
      notif_worker-of_handle h fs (route_all more shards),
      route_all-of_handle h more shards,
      of_handle-append h more rest,
      append_assoc kept (of_handle h more) (of_handle h rest),
    )
