-- ===== src/Subscriptions/Dispatch.antt =====
-- The decisions of `dispatchSample` in cmd_notification.go: what becomes of a sample of an unknown
-- handle, which samples of a known handle are outdated, and what is done with the others. The
-- conversion of the time, the parsing and the send are left out.
use go_ads.Common.{
  ℕ, ◌≤◌, ◌≡◌, refl, Bool, true, false, ◌&&◌, ◌||◌, not, none, some, List, [], ◌∷◌, Bytes, length,
  ltb, ◌==◌, if◌then◌else◌, arith,
}
use go_ads.Common.Dict.{Dict, Bytes-Key, lookup}

pub data Unknown : Type 0 where
  closing parked reconnecting orphaned : Unknown

unfoldable pub unknown_handle : Bool → Bool → Bool → Bool → Unknown
unknown_handle is_closed buffer race_active is_reconnecting =
    if is_closed
    then closing
    else if buffer && race_active
    then parked
    else if is_reconnecting
    then reconnecting
    else orphaned

-- The check of the stamp under the handle's lock: whether the sample goes on, and `lastStamp`.
unfoldable pub check_stamp : Bool → ℕ → ℕ → Bool × ℕ
check_stamp buffer timestamp last_stamp =
    if not buffer && ltb timestamp last_stamp
    then (false, last_stamp)
    else (true, if buffer || ltb last_stamp timestamp then timestamp else last_stamp)

pub data Known : Type 0 where
  not_in_cache terminal : Known
  parses : ℕ → Known

-- What is done with a sample that goes on: the symbols of the cache are given by their lengths.
unfoldable pub resolve_sample : Dict Bytes ℕ → Bytes → Bytes → Known
resolve_sample symbols key content = elim (lookup key symbols) [
  | none ↦ not_in_cache
  | some symbol_length ↦
      if length content == 0 && ltb 0 symbol_length then terminal else parses symbol_length
]

-- The samples of one handle, live (true) or replayed, as they come to the check, and those that
-- pass it.
unfoldable pub passed : ℕ → List (Bool × ℕ) → List (Bool × ℕ)
unfolding check_stamp
passed last [] = []
passed last ((buffer, timestamp) ∷ samples) =
    let (goes_on, last') = check_stamp buffer timestamp last in
    let rest = passed last' samples in if goes_on then (buffer, timestamp) ∷ rest else rest

-- A replayed sample is not older than the one before it.
abbrev pub NotOlder : ℕ → List (Bool × ℕ) → Type 0
NotOlder last [] = Unit {0}
NotOlder last ((true, timestamp) ∷ samples) = NotOlder timestamp samples
NotOlder last ((false, timestamp) ∷ samples) = (last ≤ timestamp) × NotOlder timestamp samples

passed-NotOlder : (samples : List (Bool × ℕ)) (last : ℕ) → NotOlder last (passed last samples)
unfolding passed check_stamp
passed-NotOlder [] last = tt
passed-NotOlder ((true, timestamp) ∷ samples) last = passed-NotOlder samples timestamp
passed-NotOlder ((false, timestamp) ∷ samples) last =
    ground (arith, passed-NotOlder samples last, passed-NotOlder samples timestamp)

-- The live ones.
abbrev pub live_only : List (Bool × ℕ) → List ℕ
live_only [] = []
live_only ((true, timestamp) ∷ samples) = timestamp ∷ live_only samples
live_only ((false, _) ∷ samples) = live_only samples

live_only-passed :
    (samples : List (Bool × ℕ)) (last : ℕ) → live_only (passed last samples) ≡ live_only samples
unfolding passed check_stamp
live_only-passed [] last = refl
live_only-passed ((true, timestamp) ∷ samples) last = rw (live_only-passed samples timestamp)
live_only-passed ((false, timestamp) ∷ samples) last =
    ground (arith, live_only-passed samples last, live_only-passed samples timestamp)

-- Whatever the order in which live and replayed samples of a handle come to the check, none that
-- was replayed passes it with a stamp before that of the last that passed, and the live ones all
-- pass, in their order.
pub passed_lem :
    (samples : List (Bool × ℕ)) (last : ℕ)
    → NotOlder last (passed last samples) × (live_only (passed last samples) ≡ live_only samples)
passed_lem samples last = (passed-NotOlder samples last, live_only-passed samples last)
