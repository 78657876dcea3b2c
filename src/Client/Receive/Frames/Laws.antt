-- ===== src/Client/Receive/Frames/Laws.antt =====
-- What `readFrames` of client.go makes of a stream of bytes.
use go_ads.Common.{
  ℕ, zero, suc, ◌<◌, ◌≤◌, ◌≡◌, ◌⊎◌, refl, sym, ap, ◌∙◌, List, [], ◌∷◌, ◌++◌, append_assoc, Bytes,
  length, All, arith, ok, IsByte, le→ltb-false, Result-cases, passed_on, inl, inr,
}
use go_ads.Common.Words.{
  put_le, get_le, get_bytes, get_le-put_le, get_bytes-append, length-get_le, get_bytes_lem,
}
use go_ads.Client.Receive.Frames.{
  Frame, Stop, closed, max_ams_packet, get_tcp_header, Round, stop, next, read_frame,
  read_frames_on, read_frames,
}

unfoldable pub put_frame : Frame → Bytes
put_frame f = put_le 1 f.unknown ++ (put_le 1 f.system ++ (put_le 4 (length f.body) ++ f.body))

unfoldable pub put_frames : List Frame → Bytes
unfolding put_frame
put_frames [] = []
put_frames (f ∷ fs) = put_frame f ++ put_frames fs

-- The first two fields are bytes and the body is at most the limit.
abbrev pub FrameFits : Frame → Type 0
FrameFits f = IsByte f.unknown × IsByte f.system × (length f.body ≤ max_ams_packet)

get_tcp_header-put_frame :
    (f : Frame) (rest : Bytes)
    → FrameFits f
    → get_tcp_header (put_frame f ++ rest)
      ≡ ok ((f.unknown, f.system, length f.body), f.body ++ rest)
unfolding get_tcp_header put_frame
get_tcp_header-put_frame f rest (u, s, l) =
    rw
      (
        append_assoc,
        append_assoc,
        append_assoc,
        get_le-put_le 1 f.unknown _ u,
        get_le-put_le 1 f.system _ s,
        get_le-put_le 4 (length f.body) _ (omega (arith, l)),
      )
      refl

read_frame-put_frame :
    (f : Frame) (rest : Bytes) → FrameFits f → read_frame (put_frame f ++ rest) ≡ next f rest
unfolding read_frame
read_frame-put_frame f rest h = rw (
  read_frame,
  get_tcp_header-put_frame f rest h,
  le→ltb-false max_ams_packet (length f.body) h.2,
  get_bytes-append f.body rest,
)

get_tcp_header-size :
    (bs : Bytes) {p : ℕ × ℕ × ℕ} {rest : Bytes}
    → get_tcp_header bs ≡ ok (p, rest)
    → length rest < length bs
unfolding get_tcp_header
get_tcp_header-size bs h =
    let ((u, r1), e1, h1) = passed_on (get_le 1 bs) _ h in
    let ((s, r2), e2, h2) = passed_on (get_le 1 r1) _ h1 in
    let ((l, r3), e3, h3) = passed_on (get_le 4 r2) _ h2 in
    ground (arith, length-get_le 1 bs e1, length-get_le 1 r1 e2, length-get_le 4 r2 e3, h3)

-- A round that gives a frame leaves fewer bytes.
read_frame-shorter :
    (bs : Bytes) {f : Frame} {rest : Bytes} → read_frame bs ≡ next f rest → length rest < length bs
unfolding read_frame
read_frame-shorter bs h = elim (Result-cases (get_tcp_header bs)) [
  | inl (e, p) ↦ absurd (cc (p, h))
  | inr (((u, s, l), r), p) ↦
      let size = get_tcp_header-size bs p in
      elim (Result-cases (get_bytes l r)) [
        | inl (e, q) ↦ ground (arith, p, q, h)
        | inr ((body, rest'), q) ↦
            let (a, b, c) = get_bytes_lem l r q in ground (arith, p, q, h, size, c)
      ]
]

Round-cases :
    (r : Round) → ((s : Stop) × (r ≡ stop s)) ⊎ ((f : Frame) × (rest : Bytes) × (r ≡ next f rest))
Round-cases (stop s) = inl (s, refl)
Round-cases (next f rest) = inr (f, rest, refl)

no_bytes : (n : ℕ) (bs : Bytes) → length bs ≤ 0 → read_frames_on n bs ≡ ([], closed)
unfolding read_frames_on read_frame get_tcp_header get_le
no_bytes zero bs h = refl
no_bytes (suc n) [] h = refl
no_bytes (suc n) (b ∷ bs) h = absurd (omega arith)

-- Beyond the number of bytes the fuel does not matter.
read_frames_on_enough :
    (n m : ℕ) (bs : Bytes)
    → length bs ≤ n
    → length bs ≤ m
    → read_frames_on n bs ≡ read_frames_on m bs
unfolding read_frames_on
read_frames_on_enough zero m bs h k = sym (no_bytes m bs h)
read_frames_on_enough (suc n) zero bs h k = no_bytes (suc n) bs k
read_frames_on_enough (suc n) (suc m) bs h k = elim (Round-cases (read_frame bs)) [
  | inl (s, e) ↦ rw (read_frames_on, e) refl
  | inr (f, rest, e) ↦
      let less = read_frame-shorter bs e in
      let rec = read_frames_on_enough n m rest (omega (arith, less)) (omega (arith, less)) in
      rw (read_frames_on, e, rec) refl
]

read_frames-next :
    (bs : Bytes) {f : Frame} {rest : Bytes}
    → read_frame bs ≡ next f rest
    → read_frames bs ≡ (f ∷ (read_frames rest).0, (read_frames rest).1)
unfolding read_frames read_frames_on
read_frames-next bs {f = f} {rest = rest} h =
    let less = read_frame-shorter bs h in
    let n = length bs in
    let more = read_frames_on_enough n (suc n) bs (omega arith) (omega arith) in
    let same = read_frames_on_enough n (length rest) rest (omega (arith, less)) (omega arith) in
    let one : read_frames_on (suc n) bs
        ≡ (f ∷ (read_frames_on n rest).0, (read_frames_on n rest).1) =
      rw (read_frames_on, h) refl in
    more ∙ one ∙ ap (λ r. (f ∷ r.0, r.1)) same

-- Frames within the limit that are sent one after the other are read as they are, all of them and
-- in order, whatever comes after: the loop goes on with that.
pub read_frames-put_frames :
    (fs : List Frame) (rest : Bytes)
    → All FrameFits fs
    → read_frames (put_frames fs ++ rest) ≡ (fs ++ (read_frames rest).0, (read_frames rest).1)
unfolding put_frames
read_frames-put_frames [] rest h = refl
read_frames-put_frames (f ∷ fs) rest (h, hs) = rw (
  append_assoc (put_frame f) (put_frames fs) rest,
  read_frames-next (put_frame f ++ (put_frames fs ++ rest)) (read_frame-put_frame f _ h),
  read_frames-put_frames fs rest hs,
)
