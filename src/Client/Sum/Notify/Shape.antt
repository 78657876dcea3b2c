-- ===== src/Client/Sum/Notify/Shape.antt =====
-- The shape of what the notification fallbacks of cmd_sum.go return, and the decoding of a batch.
use go_ads.Common.{
  ℕ, suc, ◌+◌, ◌<◌, ◌≡◌, ◌⊎◌, inl, inr, refl, ap, some, none, List, [], ◌∷◌, ◌++◌, append_assoc,
  Bytes, length, All, arith, Result, ok, err, Fault, Result-cases, IsU32,
}
use go_ads.Common.Words.{put_le}
use go_ads.Defs.{return_code?, downgrade_trans_mode}
use go_ads.Client.Conn.{Conn}
use go_ads.Client.Rpc.{add_device_notification, delete_device_notification}
use go_ads.Client.Sum.Layout.ReadReply.{u32-put_le, drop_word, drop_head}
use go_ads.Client.Sum.Notify.{
  Batch, NotificationRequest, NotificationResult, failed_with, verdict, skipped_for, abandoned,
  sum_add_notification_fallback, sum_delete_notification_fallback, decode_notifications,
}

-- The PLC has answered.
abbrev pub IsSent : NotificationResult → Type 0
IsSent r = r.skipped ≡ none

-- Entries that the PLC answered, then the one at which the transport failed, then those that were
-- never sent.
abbrev pub IsCut : ℕ → List NotificationRequest → Batch NotificationResult → Type 0
IsCut i rs b =
    (e : Fault) × (sent : List NotificationResult) × (left : List NotificationRequest) × (b.fault
      ≡ some e)
    × (return_code? e ≡ none)
    × All IsSent sent
    × (b.results ≡ sent ++ (skipped_for (failed_with e) ∷ abandoned (i + length sent) left))

abbrev pub IsWhole : Batch NotificationResult → Type 0
IsWhole b = (b.fault ≡ none) × All IsSent b.results

length-abandoned : (i : ℕ) (rs : List NotificationRequest) → length (abandoned i rs) ≡ length rs
length-abandoned i [] = refl
length-abandoned i (r ∷ rs) = ap suc (length-abandoned i rs)

verdict-IsSent : (a : Result ℕ) {item : NotificationResult} → verdict a ≡ ok item → IsSent item
verdict-IsSent a h = ground arith

verdict-return_code : (a : Result ℕ) {e : Fault} → verdict a ≡ err e → return_code? e ≡ none
verdict-return_code a h = ground arith

module _ {S : Type 0} (ask : ℕ → Bytes → S → Result Bytes × S)
    (on_item : ℕ → NotificationResult → S → S) where
  -- The fallback of SumAddDeviceNotification has a result for each request. Either every entry
  -- has been answered and there is no error, or the error is one that no device has given, and
  -- every entry from the one it met on is marked as skipped.
  pub sum_add_fallback_shape :
      (i : ℕ) (rs : List NotificationRequest) (c : Conn S)
      → let b = (sum_add_notification_fallback ask on_item i rs c).0 in
        (length b.results ≡ length rs) × (IsWhole b ⊎ IsCut i rs b)
  unfolding sum_add_notification_fallback
  sum_add_fallback_shape i [] c = (refl, inl (refl, tt))
  sum_add_fallback_shape i (r ∷ rs) c =
      let mode = downgrade_trans_mode r.mode in
      let (answer, c') =
        add_device_notification ask r.group r.offset r.length mode r.max_delay r.cycle_time c in
      let w = c'.world in
      let index : (n : ℕ) → suc i + n ≡ i + suc n = λ n. omega arith in
      elim (Result-cases (verdict answer)) [
        | inl (e, h) ↦
            rw (sum_add_notification_fallback, h)
              (
                ap suc (length-abandoned i rs),
                inr (
                  e,
                  [],
                  rs,
                  refl,
                  verdict-return_code answer h,
                  tt,
                  ap (λ n. skipped_for (failed_with e) ∷ abandoned n rs) (omega arith),
                ),
              )
        | inr (item, h) ↦
            let (l, shape) =
              sum_add_fallback_shape (suc i) rs (record c' { world = on_item i item w }) in
            rw (sum_add_notification_fallback, h)
              (
                ap suc l,
                elim shape [
                  | inl (f, a) ↦ inl (f, (verdict-IsSent answer h, a))
                  | inr (e, sent, left, f, n, a, cut) ↦ inr (
                    e,
                    item ∷ sent,
                    left,
                    f,
                    n,
                    (verdict-IsSent answer h, a),
                    rw (cut, index (length sent)) refl,
                  )
                ],
              )
      ]

module _ {S : Type 0} (ask : ℕ → Bytes → S → Result Bytes × S) where
  -- The fallback of SumDeleteDeviceNotification has a code for each handle, or else an error that
  -- no device has given and the codes of the handles before it.
  pub sum_delete_fallback_shape :
      (hs : List ℕ) (c : Conn S)
      → let b = (sum_delete_notification_fallback ask hs c).0 in
        ((b.fault ≡ none) × (length b.results ≡ length hs))
        ⊎ ((e : Fault) × (b.fault ≡ some e)
            × (return_code? e ≡ none)
            × (length b.results < length hs))
  unfolding sum_delete_notification_fallback
  sum_delete_fallback_shape [] c = inl (refl, refl)
  sum_delete_fallback_shape (h ∷ hs) c =
      let (answer, c') = delete_device_notification ask h c in
      let shape = sum_delete_fallback_shape hs c' in ground arith

unfoldable pub put_answers : List (ℕ × ℕ) → Bytes
put_answers [] = []
put_answers ((code, handle) ∷ items) = (put_le 4 code ++ put_le 4 handle) ++ put_answers items

abbrev pub answered : List (ℕ × ℕ) → List NotificationResult
answered [] = []
answered ((code, handle) ∷ items) =
    record { handle = handle; error = code; skipped = none } ∷ answered items

-- A PLC's answer to a batch of Adds, a code and a handle for each, is decoded to just those.
pub decode_notifications-put_answers :
    (items : List (ℕ × ℕ)) (extra : Bytes)
    → All (λ a. IsU32 a.0 × IsU32 a.1) items
    → decode_notifications (put_answers items ++ extra) (length items) ≡ answered items
unfolding decode_notifications put_answers
decode_notifications-put_answers [] extra h = refl
decode_notifications-put_answers ((code, handle) ∷ items) extra ((c, d), h) = rw (
  append_assoc,
  append_assoc,
  u32-put_le code _ c,
  drop_word code,
  u32-put_le handle _ d,
  drop_head,
  decode_notifications-put_answers items extra h,
)
