-- ===== src/Subscriptions/Window.antt =====
-- The window of the subscribes that are in flight, and the samples that are buffered while it is
-- open: `beginSubscribe`, `subscribeProgress`, `endSubscribe`, `subscribeRaceActive`,
-- `bufferEarlySample` and `replayEarlySamples` of cmd_notification.go. The time, in nanoseconds, is
-- an argument. A replay gives the samples to be dispatched.

pub mod Laws
pub mod Steps
pub mod History
use go_ads.Common.{
  ℕ, ◌+◌, ◌-◌, ◌*◌, ◌%◌, ◌^◌, Bool, true, false, ◌&&◌, ◌||◌, not, Option, none, some, List, [], ◌∷◌,
  Bytes, length, ltb, leb, ◌==◌, if◌then◌else◌,
}
use go_ads.Common.Dict.{Dict, ℕ-Key, lookup, has, insert, erase}

pub record EarlySample : Type 0 where
  pub timestamp : ℕ
  pub content : Bytes

pub record Window : Type 0 where
  pub open_subscribes : Dict ℕ ℕ
  pub next_subscribe_token : ℕ
  pub subscribe_in_flight : ℕ
  pub last_subscribe_ns : ℕ
  pub early_samples : Dict ℕ EarlySample
  pub early_bytes : ℕ

abbrev pub early_sample_max_handles : ℕ
early_sample_max_handles = 4096

abbrev pub early_sample_max_bytes : ℕ
early_sample_max_bytes = 8 * 2 ^ 20

abbrev pub subscribe_race_window : ℕ
subscribe_race_window = 100000000

abbrev pub subscribe_race_max_open : ℕ
subscribe_race_max_open = 30000000000

unfoldable pub newest_start : ℕ → Dict ℕ ℕ → ℕ
newest_start newest [] = newest
newest_start newest ((_, start) ∷ d) = newest_start (if ltb newest start then start else newest) d

unfoldable pub newest_open_subscribe : Window → ℕ × Bool
newest_open_subscribe w =
    let newest = newest_start 0 w.open_subscribes in (newest, not (newest == 0))

-- `now - newest < max` on signed numbers
unfoldable pub subscribe_race_active : ℕ → Window → Bool
subscribe_race_active now w =
    let (newest, open_) = newest_open_subscribe w in
    if open_
    then ltb now (newest + subscribe_race_max_open)
    else ltb now (w.last_subscribe_ns + subscribe_race_window)

unfoldable pub begin_subscribe : ℕ → Window → ℕ × Window
begin_subscribe now w =
    let token = (w.next_subscribe_token + 1) % 2 ^ 64 in
    let open_ = insert token now w.open_subscribes in
    (
      token,
      record w {
        next_subscribe_token = token;
        open_subscribes = open_;
        subscribe_in_flight = length open_;
        last_subscribe_ns = now;
      },
    )

unfoldable pub subscribe_progress : ℕ → ℕ → Window → Window
subscribe_progress now token w =
    if has token w.open_subscribes
    then record w { open_subscribes = insert token now w.open_subscribes }
    else w

-- The bytes that a sample frees by taking another's place.
unfoldable pub freed : ℕ → Dict ℕ EarlySample → ℕ
freed handle samples = elim (lookup handle samples) [ none ↦ 0 | some s ↦ length s.content ]

unfoldable pub is_full : ℕ → Bytes → Window → Bool
is_full handle content w =
    (not (has handle w.early_samples) && leb early_sample_max_handles (length w.early_samples))
    || ltb early_sample_max_bytes (w.early_bytes + length content - freed handle w.early_samples)

-- Whether the sample was taken; the replay that follows is `replay_early_samples`.
unfoldable pub park : ℕ → ℕ → Bytes → Window → Bool × Window
park handle timestamp content w = if is_full handle content w then (false, w) else (
  true,
  record w {
    early_samples =
        insert handle (record { timestamp = timestamp; content = content }) w.early_samples;
    early_bytes = w.early_bytes + length content - freed handle w.early_samples;
  },
)

-- `bound` tells whether a handle is in activeNotifications.
unfoldable pub replay_early_samples : (ℕ → Bool) → List ℕ → Window → List (ℕ × EarlySample) × Window
replay_early_samples bound [] w = ([], w)
replay_early_samples bound (h ∷ hs) w =
    let taken : List (ℕ × EarlySample) × Window = elim (lookup h w.early_samples) [
      | none ↦ ([], w)
      | some s ↦ (
        (h, s) ∷ [],
        record w {
          early_samples = erase h w.early_samples;
          early_bytes = w.early_bytes - length s.content;
        },
      )
    ] in
    let here = if bound h then taken else ([], w) in
    let (more, w') = replay_early_samples bound hs here.1 in
    (elim here.0 [ [] ↦ more | p ∷ _ ↦ p ∷ more ], w')

unfoldable pub buffer_early_sample :
    (ℕ → Bool) → ℕ → ℕ → Bytes → Window → List (ℕ × EarlySample) × Window
buffer_early_sample bound handle timestamp content w =
    let (kept, w') = park handle timestamp content w in
    if kept then replay_early_samples bound (handle ∷ []) w' else ([], w')

unfoldable pub close_subscribe : ℕ → Window → Window
close_subscribe token w =
    let open_ = erase token w.open_subscribes in
    let none_left = length open_ == 0 in
    record w {
      open_subscribes = open_;
      subscribe_in_flight = length open_;
      early_samples = if none_left then [] else w.early_samples;
      early_bytes = if none_left && ltb 0 (length w.early_samples) then 0 else w.early_bytes;
    }

unfoldable pub end_subscribe :
    ℕ → (ℕ → Bool) → ℕ → List ℕ → Window → List (ℕ × EarlySample) × Window
end_subscribe now bound token committed w =
    let (replayed, w') =
      replay_early_samples bound committed (record w { last_subscribe_ns = now }) in
    (replayed, close_subscribe token w')
