-- ===== src/Subscriptions/Batch/Samples.antt =====
-- The laws of a batch of subscriptions and of the deletion of orphans at concrete managers.
use go_ads.Common.{ℕ, ◌+◌, ◌≡◌, true, false, List, [], ◌∷◌, Bytes, All, length}
use go_ads.Common.Dict.{ℕ-Key, eq_text, has}
use go_ads.Subscriptions.{Config}
use go_ads.Subscriptions.History.{empty}
use go_ads.Subscriptions.Batch.{
  Answer, Planned, requested, skipped_as, unresolved, Around, requests_of, send_batch,
}
use go_ads.Subscriptions.Batch.Laws.{count, created, heard, successes, send_batch_owns}
use go_ads.Subscriptions.Orphans.{Others, expires, takes, records}

abbrev same : Bytes → Bytes
same s = s

abbrev a : Bytes
a = b'a' ∷ []

abbrev config : Bytes → Config
config name = record { symbol_name = name; mode = 4; max_delay = 0; cycle_time = 100000 }

-- The PLC has created a handle for each of two requests, of which the cache has one symbol only.
abbrev reply : ℕ → Answer
reply handle = record {
  error = 0;
  handle = handle;
  is_skipped = false;
  symbols = (a, a) ∷ [];
  same_epoch = true;
  meanwhile = λ m. m;
}

abbrev around : Around
around = record {
  may_run = true;
  resolves = λ name. true;
  connected = true;
  answers = reply 11 ∷ reply 12 ∷ [];
  aborted = false;
  later = λ m. m;
  release_codes = 0 ∷ [];
}

abbrev planned : List Planned
planned = requested (config a) ∷ skipped_as unresolved ∷ requested (config (b'b' ∷ [])) ∷ []

send_batch_owns_example :
    let b = send_batch same eq_text around 1 planned empty in
    (length b.results ≡ 3)
    × All (λ j. has j b.settled.active ≡ true) (successes b.results)
    × (count 12 (created (requests_of planned) (heard around))
        ≡ count 12 (successes b.results) + count 12 b.released)
send_batch_owns_example = send_batch_owns same eq_text around 1 planned empty 12

-- The handle 7 is seen again a second after its deletion was scheduled, which has ended by then,
-- while the deletion of the handle 8 is scheduled.
abbrev second : ℕ
second = 1000000000

abbrev others : Others
others = record {
  checked = expires 0 ∷ [];
  taken = takes 8 ∷ [];
  recorded = records 8 0 ∷ [];
  slot_freed = [];
}
