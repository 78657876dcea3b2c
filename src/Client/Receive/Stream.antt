-- ===== src/Client/Receive/Stream.antt =====
-- `decodeNotification` of client.go. Its calls of `emit` are the list that comes with the error:
-- an error does not take back the samples passed on before it.
pub mod Laws
use go_ads.Common.{
  ℕ, zero, suc, ◌+◌, ◌%◌, ◌^◌, List, [], ◌∷◌, ◌++◌, Bytes, length, ltb, if◌then◌else◌, Result, ok,
  err, malformed, ◌>>=◌, Fault, Option, none, some,
}
use go_ads.Common.Words.{get_le, get_bytes}

pub record Sample : Type 0 where
  pub handle : ℕ
  pub timestamp : ℕ
  pub content : Bytes

-- `sample.Size > uint32(data.Len())`
unfoldable pub get_sample : ℕ → Bytes → Result (Sample × Bytes)
get_sample timestamp bs = do
  (handle, r1) ← get_le 4 bs
  (size, r2) ← get_le 4 r1
  if ltb (length r2 % 2 ^ 32) size then err malformed else do
    (content, rest) ← get_bytes size r2
    ok (record { handle = handle; timestamp = timestamp; content = content }, rest)

unfoldable pub decode_samples : ℕ → ℕ → Bytes → List Sample × Result Bytes
unfolding get_sample
decode_samples zero timestamp bs = ([], ok bs)
decode_samples (suc n) timestamp bs = elim (get_sample timestamp bs) [
  | err e ↦ ([], err e)
  | ok p ↦
      let (sample, rest) = p in
      let (more, r) = decode_samples n timestamp rest in (sample ∷ more, r)
]

-- A stamp header: a time of eight bytes and the number of samples.
unfoldable pub get_stamp : Bytes → Result ((ℕ × ℕ) × Bytes)
get_stamp bs = do
  (timestamp, r1) ← get_le 8 bs
  (samples, r2) ← get_le 4 r1
  ok ((timestamp, samples), r2)

unfoldable pub decode_stamps : ℕ → Bytes → List Sample × Result Bytes
unfolding get_stamp decode_samples
decode_stamps zero bs = ([], ok bs)
decode_stamps (suc n) bs = elim (get_stamp bs) [
  | err e ↦ ([], err e)
  | ok p ↦
      let ((timestamp, count), rest) = p in
      let (samples, r) = decode_samples count timestamp rest in
      elim r [
        | err e ↦ (samples, err e)
        | ok bs' ↦ let (more, r') = decode_stamps n bs' in (samples ++ more, r')
      ]
]

-- The length in front is not looked at.
unfoldable pub get_stream : Bytes → Result (ℕ × Bytes)
get_stream bs = do (length, r1) ← get_le 4 bs; (stamps, r2) ← get_le 4 r1; ok (stamps, r2)

unfoldable pub decode_notification : Bytes → List Sample × Option Fault
unfolding get_stream decode_stamps
decode_notification bs = elim (get_stream bs) [
  | err e ↦ ([], some e)
  | ok p ↦
      let (stamps, rest) = p in
      let (samples, r) = decode_stamps stamps rest in
      (samples, elim r [ err e ↦ some e | ok _ ↦ none ])
]
