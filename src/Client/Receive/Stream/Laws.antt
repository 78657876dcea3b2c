-- ===== src/Client/Receive/Stream/Laws.antt =====
-- What `decodeNotification` of client.go makes of a well-formed packet, and of any packet.
use go_ads.Common.{
  ℕ, zero, suc, ◌+◌, ◌%◌, ◌^◌, ◌≤◌, ◌≡◌, refl, ap, List, [], ◌∷◌, ◌++◌, append_assoc, Bytes, length,
  length-append, All, arith, Result, ok, err, none, ltb, if◌then◌else◌, IsU32, IsU64, Result-cases,
  ◌>>=◌, passed_on, Bool-cases, malformed, inl, inr,
}
use go_ads.Common.Words.{
  put_le, get_le, get_bytes, get_le-put_le, get_bytes-append, length-get_le, length-put_le,
  get_bytes_lem,
}
use go_ads.Client.Receive.Stream.{
  Sample, get_sample, decode_samples, get_stamp, decode_stamps, get_stream, decode_notification,
}

-- A stamp as a PLC sends it: a time and the samples taken then.
pub record Stamp : Type 0 where
  pub timestamp : ℕ
  pub samples : List (ℕ × Bytes)

unfoldable pub put_sample : ℕ × Bytes → Bytes
put_sample (handle, content) = put_le 4 handle ++ (put_le 4 (length content) ++ content)

unfoldable pub put_samples : List (ℕ × Bytes) → Bytes
unfolding put_sample
put_samples [] = []
put_samples (s ∷ ss) = put_sample s ++ put_samples ss

unfoldable pub put_stamps : List Stamp → Bytes
unfolding put_samples
put_stamps [] = []
put_stamps (s ∷ ss) =
    (put_le 8 s.timestamp ++ (put_le 4 (length s.samples) ++ put_samples s.samples))
    ++ put_stamps ss

unfoldable pub put_stream : ℕ → List Stamp → Bytes
unfolding put_stamps
put_stream declared ss = put_le 4 declared ++ (put_le 4 (length ss) ++ put_stamps ss)

abbrev pub stamped : ℕ → List (ℕ × Bytes) → List Sample
stamped t [] = []
stamped t ((handle, content) ∷ ss) =
    record { handle = handle; timestamp = t; content = content } ∷ stamped t ss

unfoldable pub all_samples : List Stamp → List Sample
all_samples [] = []
all_samples (s ∷ ss) = stamped s.timestamp s.samples ++ all_samples ss

abbrev pub SampleFits : ℕ × Bytes → Type 0
SampleFits (handle, content) = IsU32 handle

abbrev pub StampFits : Stamp → Type 0
StampFits s = IsU64 s.timestamp × IsU32 (length s.samples) × All SampleFits s.samples

get_sample-put_sample :
    (t : ℕ) (s : ℕ × Bytes) (rest : Bytes)
    → SampleFits s
    → IsU32 (length s.1 + length rest)
    → get_sample t (put_sample s ++ rest)
      ≡ ok (record { handle = s.0; timestamp = t; content = s.1 }, rest)
unfolding get_sample put_sample
get_sample-put_sample t (handle, content) rest f l =
    let total = length-append content rest in
    rw
      (
        append_assoc,
        get_le-put_le 4 handle _ f,
        append_assoc,
        get_le-put_le 4 (length content) _ (omega arith),
        get_bytes-append content rest,
      )
      (ground (arith, total))

length-put_sample : (s : ℕ × Bytes) → length (put_sample s) ≡ 8 + length s.1
unfolding put_sample
length-put_sample (handle, content) = ground (
  arith,
  length-append (put_le 4 handle) (put_le 4 (length content) ++ content),
  length-append (put_le 4 (length content)) content,
  length-put_le 4 handle,
  length-put_le 4 (length content),
)

decode_samples-put_samples :
    (t : ℕ) (ss : List (ℕ × Bytes)) (rest : Bytes)
    → All SampleFits ss
    → IsU32 (length (put_samples ss ++ rest))
    → decode_samples (length ss) t (put_samples ss ++ rest) ≡ (stamped t ss, ok rest)
unfolding decode_samples put_samples
decode_samples-put_samples t [] rest f l = refl
decode_samples-put_samples t (s ∷ ss) rest (f, fs) l =
    let tail = put_samples ss ++ rest in
    let joined = append_assoc (put_sample s) (put_samples ss) rest in
    let l' : IsU32 (length (put_sample s ++ tail)) = rw joined at l in
    let total = length-append (put_sample s) tail in
    let size = length-put_sample s in
    rw (
      joined,
      decode_samples,
      get_sample-put_sample t s tail f (omega (arith, total, size)),
      decode_samples-put_samples t ss rest fs (omega (arith, total)),
    )

unfoldable put_stamp : Stamp → Bytes
put_stamp s = put_le 8 s.timestamp ++ (put_le 4 (length s.samples) ++ put_samples s.samples)

get_stamp-put_stamp :
    (s : Stamp) (rest : Bytes)
    → StampFits s
    → get_stamp (put_stamp s ++ rest)
      ≡ ok ((s.timestamp, length s.samples), put_samples s.samples ++ rest)
unfolding get_stamp put_stamp
get_stamp-put_stamp s rest (t, n, f) =
    rw
      (
        append_assoc,
        append_assoc,
        get_le-put_le 8 s.timestamp _ t,
        get_le-put_le 4 (length s.samples) _ n,
      )
      refl

length-put_stamp_lem :
    (s : Stamp) (rest : Bytes)
    → length (put_samples s.samples ++ rest) ≤ length (put_stamp s ++ rest)
unfolding put_stamp
length-put_stamp_lem s rest = ground (
  arith,
  length-append (put_stamp s) rest,
  length-append (put_samples s.samples) rest,
  length-append (put_le 8 s.timestamp) (put_le 4 (length s.samples) ++ put_samples s.samples),
  length-append (put_le 4 (length s.samples)) (put_samples s.samples),
)

decode_stamps-put_stamps :
    (ss : List Stamp) (rest : Bytes)
    → All StampFits ss
    → IsU32 (length (put_stamps ss ++ rest))
    → decode_stamps (length ss) (put_stamps ss ++ rest) ≡ (all_samples ss, ok rest)
unfolding decode_stamps put_stamps all_samples put_stamp
decode_stamps-put_stamps [] rest f l = refl
decode_stamps-put_stamps (s ∷ ss) rest ((ft, fn, fs), h) l =
    let tail = put_stamps ss ++ rest in
    let joined = append_assoc (put_stamp s) (put_stamps ss) rest in
    let l' : IsU32 (length (put_stamp s ++ tail)) = rw joined at l in
    let inner = length-put_stamp_lem s tail in
    let total = length-append (put_samples s.samples) tail in
    let read = decode_samples-put_samples s.timestamp s.samples tail fs (omega (arith, inner)) in
    rw (
      joined,
      decode_stamps,
      get_stamp-put_stamp s tail (ft, fn, fs),
      read,
      decode_stamps-put_stamps ss rest h (omega (arith, inner, total)),
      read,
    )

get_stream-put_stream :
    (declared : ℕ) (ss : List Stamp) (extra : Bytes)
    → IsU32 declared
    → IsU32 (length ss)
    → get_stream (put_stream declared ss ++ extra) ≡ ok (length ss, put_stamps ss ++ extra)
unfolding get_stream put_stream
get_stream-put_stream declared ss extra d n =
    rw (append_assoc, append_assoc, get_le-put_le 4 declared _ d, get_le-put_le 4 (length ss) _ n)
      refl

-- The samples of a packet that a PLC has put together are passed on, all of them, with their
-- stamp's time and in the order they were sent; bytes after them are ignored.
pub decode_notification-put_stream :
    (declared : ℕ) (ss : List Stamp) (extra : Bytes)
    → IsU32 declared
    → IsU32 (length ss)
    → All StampFits ss
    → IsU32 (length (put_stamps ss ++ extra))
    → decode_notification (put_stream declared ss ++ extra) ≡ (all_samples ss, none)
unfolding decode_notification
decode_notification-put_stream declared ss extra d n f l = rw (
  decode_notification,
  get_stream-put_stream declared ss extra d n,
  decode_stamps-put_stamps ss extra f l,
)

-- The bytes that samples take on the wire.
abbrev pub wire_size : List Sample → ℕ
wire_size [] = 0
wire_size (s ∷ ss) = 8 + length s.content + wire_size ss

abbrev left_over : Result Bytes → ℕ
left_over (ok bs) = length bs
left_over (err e) = 0

wire_size-append : (xs ys : List Sample) → wire_size (xs ++ ys) ≡ wire_size xs + wire_size ys
wire_size-append [] ys = omega arith
wire_size-append (x ∷ xs) ys = omega (arith, wire_size-append xs ys)

get_content-size :
    (t handle size : ℕ) (bs : Bytes) {s : Sample} {rest : Bytes}
    → if◌then◌else◌ {A = Result (Sample × Bytes)} (ltb (length bs % 2 ^ 32) size) (err malformed) (
        get_bytes size bs >>= λ p.
        ok (record { handle = handle; timestamp = t; content = p.0 }, p.1))
      ≡ ok (s, rest)
    → length s.content + length rest ≡ length bs
get_content-size t handle size bs h = elim (Bool-cases (ltb (length bs % 2 ^ 32) size)) [
  | inl b ↦ absurd (cc (b, h))
  | inr b ↦
      let ((content, r), e, h') = passed_on (get_bytes size bs) _ (rw b at h) in
      let (l, joined, total) = get_bytes_lem size bs e in ground (arith, l, total, h')
]

get_sample-size :
    (t : ℕ) (bs : Bytes) {s : Sample} {rest : Bytes}
    → get_sample t bs ≡ ok (s, rest)
    → 8 + length s.content + length rest ≡ length bs
unfolding get_sample
get_sample-size t bs h =
    let ((handle, r1), e1, h1) = passed_on (get_le 4 bs) _ h in
    let ((size, r2), e2, h2) = passed_on (get_le 4 r1) _ h1 in
    let content = get_content-size t handle size r2 h2 in
    omega (arith, length-get_le 4 bs e1, length-get_le 4 r1 e2, content)

decode_samples-size :
    (n t : ℕ) (bs : Bytes)
    → wire_size (decode_samples n t bs).0 + left_over (decode_samples n t bs).1 ≤ length bs
unfolding decode_samples
decode_samples-size zero t bs = omega arith
decode_samples-size (suc n) t bs = elim (Result-cases (get_sample t bs)) [
  | inl (e, h) ↦ rw (decode_samples, h) (omega arith)
  | inr ((s, rest), h) ↦
      rw (decode_samples, h) (omega (arith, get_sample-size t bs h, decode_samples-size n t rest))
]

get_stamp-size :
    (bs : Bytes) {p : ℕ × ℕ} {rest : Bytes} → get_stamp bs ≡ ok (p, rest) → length rest ≤ length bs
unfolding get_stamp
get_stamp-size bs h =
    let ((timestamp, r1), e1, h1) = passed_on (get_le 8 bs) _ h in
    let ((samples, r2), e2, h2) = passed_on (get_le 4 r1) _ h1 in
    ground (arith, length-get_le 8 bs e1, length-get_le 4 r1 e2, h2)

decode_stamps-size :
    (n : ℕ) (bs : Bytes)
    → wire_size (decode_stamps n bs).0 + left_over (decode_stamps n bs).1 ≤ length bs
unfolding decode_stamps
decode_stamps-size zero bs = omega arith
decode_stamps-size (suc n) bs = elim (Result-cases (get_stamp bs)) [
  | inl (e, h) ↦ rw (decode_stamps, h) (omega arith)
  | inr (((t, k), r), h) ↦
      let first = decode_samples-size k t r in
      let size = get_stamp-size bs h in
      elim (Result-cases (decode_samples k t r).1) [
        | inl (e, p) ↦ rw (decode_stamps, h, p) (omega (arith, first, size))
        | inr (r', p) ↦
            let next = decode_stamps-size n r' in
            rw (decode_stamps, h, p)
              (omega (
                arith,
                first,
                size,
                next,
                ap left_over p,
                wire_size-append (decode_samples k t r).0 (decode_stamps n r').0,
              ))
      ]
]

get_stream-size :
    (bs : Bytes) {k : ℕ} {rest : Bytes} → get_stream bs ≡ ok (k, rest) → length rest ≤ length bs
unfolding get_stream
get_stream-size bs h =
    let ((declared, r1), e1, h1) = passed_on (get_le 4 bs) _ h in
    let ((stamps, r2), e2, h2) = passed_on (get_le 4 r1) _ h1 in
    ground (arith, length-get_le 4 bs e1, length-get_le 4 r1 e2, h2)

-- Whatever counts and sizes a packet claims, the contents that are allocated and passed on take
-- no more bytes, each with its eight bytes of handle and size, than the packet has.
pub decode_notification-wire_size : (bs : Bytes) → wire_size (decode_notification bs).0 ≤ length bs
unfolding decode_notification
decode_notification-wire_size bs = elim (Result-cases (get_stream bs)) [
  | inl (e, h) ↦ rw (decode_notification, h) (omega arith)
  | inr ((k, r), h) ↦
      rw (decode_notification, h) (omega (arith, decode_stamps-size k r, get_stream-size bs h))
]
