-- ===== src/Subscriptions/Samples.antt =====
-- The laws of the bookkeeping of notifications at concrete managers and windows.
use go_ads.Common.{
  ℕ, ◌≡◌, refl, Bool, true, false, none, some, List, [], ◌∷◌, Bytes, arith, Bool-cases, inl, inr,
  ◌⊎◌, ok, Bool-cases, inl, inr,
}
use go_ads.Common.Dict.{
  Dict, ℕ-Key, Bytes-Key, eq_text, lookup, has, insert, erase, IsDict, eq_text→≡,
}
use go_ads.Subscriptions.{Config, Pending, Manager, set_pending, remove_notification_config}
use go_ads.Subscriptions.Single
use go_ads.Subscriptions.Single.{
  Owned, Declined, add_symbol_notification, add_symbol_notification_lem,
}
use go_ads.Subscriptions.Lockstep.{intent, Lockstep, set_pending_lem}
use go_ads.Subscriptions.Configs.{remove_config_lem}
use go_ads.Subscriptions.Inv.{Inv}
use go_ads.Subscriptions.Plain.{IsAscii}
use mathlib.Core.Path.{subst}
use go_ads.Subscriptions.History.{
  empty, Call, commits, deletes, restores, takes, run, run-empty-Inv,
}
use go_ads.Subscriptions.Window.Laws.{Fits}
use go_ads.Subscriptions.Window.History
use go_ads.Subscriptions.Window.History.{closed, begins, buffers, ends, run-closed-Fits}
use go_ads.Subscriptions.Dispatch.{passed, NotOlder, live_only, passed_lem}

-- Names that are keys as they are.
abbrev same : Bytes → Bytes
same s = s

abbrev config : Bytes → Config
config name = record { symbol_name = name; mode = 4; max_delay = 0; cycle_time = 100000 }

abbrev entry : Bytes → ℕ → Pending
entry name attempts = record { config = config name; resubscribe_attempts = attempts }

abbrev a : Bytes
a = b'a' ∷ []

abbrev b : Bytes
b = b'b' ∷ []

a-IsAscii : IsAscii a
a-IsAscii = (omega arith, tt)

b-IsAscii : IsAscii b
b-IsAscii = (omega arith, tt)

abbrev two : Manager
two = record empty { pending = entry a 0 ∷ entry b 0 ∷ []; configs_by_key = (a, tt) ∷ (b, tt) ∷ [] }

two-Lockstep : Lockstep same two
unfolding empty intent IsDict has eq_text
two-Lockstep = record { single = (refl, (refl, tt)); indexed = λ k. refl }

set_pending_lem_example :
    (intent same (set_pending same (entry b 3) two).pending
      ≡ insert b (entry b 3) (intent same two.pending))
    × Lockstep same (set_pending same (entry b 3) two)
set_pending_lem_example = set_pending_lem same two (entry b 3) two-Lockstep

remove_config_lem_example :
    (intent same (remove_notification_config same eq_text b two).pending
      ≡ erase b (intent same two.pending))
    × Lockstep same (remove_notification_config same eq_text b two)
remove_config_lem_example =
    remove_config_lem same eq_text (λ x y i j. refl) b two b-IsAscii (a-IsAscii, (b-IsAscii, tt))
      two-Lockstep

-- The cache has the two symbols; the second commit of the first is refused.
abbrev cache : Dict Bytes Bytes
cache = (a, a) ∷ (b, b) ∷ []

cache_fits :
    (name full_name : Bytes)
    → lookup name cache ≡ some full_name
    → (full_name ≡ name) × IsAscii full_name
unfolding lookup
cache_fits name full_name e = elim (Bool-cases (eq_text name a)) [
  | inl f ↦ found name full_name a a-IsAscii f (rw f at e)
  | inr f ↦ elim (Bool-cases (eq_text name b)) [
    | inl g ↦ found name full_name b b-IsAscii g (rw (f, g) at e)
    | inr g ↦ let k : none ≡ some full_name = rw (f, g) at e in absurd cc
  ]
]
  where
    found :
        (name full_name c : Bytes)
        → IsAscii c
        → eq_text name c ≡ true
        → some c ≡ some full_name
        → (full_name ≡ name) × IsAscii full_name
    found name full_name c i f k =
        let g = eq_text→≡ name c f in let h : c ≡ full_name = cc in (cc, subst IsAscii h i)

abbrev calls : List Call
calls =
    commits cache true (config a) 11 1
    ∷ commits cache true (config b) 12 1
    ∷ commits cache true (config a) 13 1
    ∷ deletes 11 a true none
    ∷ deletes 12 a false none
    ∷ restores (entry a 0 ∷ [])
    ∷ takes
    ∷ []

run-empty-Inv_example : Inv same (run same eq_text empty calls)
run-empty-Inv_example =
    run-empty-Inv same eq_text (λ x y i j. refl) calls
      (
        (a-IsAscii, cache_fits),
        (
          (b-IsAscii, cache_fits),
          ((a-IsAscii, cache_fits), (a-IsAscii, (a-IsAscii, ((a-IsAscii, tt), (tt, tt))))),
        ),
      )

abbrev nothing_bound : ℕ → Bool
nothing_bound handle = false

run-closed-Fits_example : Fits (
    History.run closed (
      begins 1
      ∷ buffers nothing_bound 7 5 a
      ∷ buffers nothing_bound 7 6 b
      ∷ ends 9 nothing_bound 1 []
      ∷ []))
run-closed-Fits_example = run-closed-Fits (
    begins 1
    ∷ buffers nothing_bound 7 5 a
    ∷ buffers nothing_bound 7 6 b
    ∷ ends 9 nothing_bound 1 []
    ∷ [])

passed_lem_example :
    NotOlder 0 (passed 0 ((true, 5) ∷ (false, 3) ∷ (true, 4) ∷ []))
    × (live_only (passed 0 ((true, 5) ∷ (false, 3) ∷ (true, 4) ∷ [])) ≡ 5 ∷ 4 ∷ [])
passed_lem_example = passed_lem ((true, 5) ∷ (false, 3) ∷ (true, 4) ∷ []) 0

-- The PLC creates a handle for the second symbol, while another caller files the first again.
abbrev request : Single.Call
request = record {
  is_running = true;
  resolves = true;
  has_client = true;
  answer = ok 12;
  symbols = cache;
  same_epoch = true;
  meanwhile = set_pending same (entry a 1);
}

add_symbol_notification_lem_example :
    let s = add_symbol_notification same request (config b) 1 two in
    Lockstep same s.manager
    × (Owned same request (config b) 1 two s
        ⊎ Declined same (set_pending same (entry a 1)) (ok 12) two s)
add_symbol_notification_lem_example =
    add_symbol_notification_lem same request (config b) 1 two
      (λ m l. (set_pending_lem same m (entry a 1) l).1) two-Lockstep
