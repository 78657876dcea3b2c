-- ===== src/Subscriptions/Batch/Laws.antt =====
-- Each handle that a batch has made the PLC create is bound or released.
use go_ads.Common.{
  ℕ, suc, ◌+◌, ◌≡◌, refl, ap, ◌∙◌, Bool, true, false, ◌&&◌, not, none, some, List, [], ◌∷◌, ◌++◌,
  Bytes, ◌==◌, if◌then◌else◌, arith, All, Bool-cases, inl, inr, length,
}
use go_ads.Common.Dict.{ℕ-Key, has}
use go_ads.Subscriptions.{Config, Manager, remove_notification_config}
use go_ads.Subscriptions.Batch.{
  Slot, Answer, Planned, skipped_as, requested, Outcome, declined, on_item, on_items, is_reported,
  mark_aborted, amend, is_refusal, is_declined, is_stranded, handles_if, mark, strand, requests_of,
  spread, Around, send_batch,
}

abbrev pub count : ℕ → List ℕ → ℕ
count h [] = 0
count h (x ∷ xs) = (if x == h then 1 else 0) + count h xs

count-append : (h : ℕ) (xs ys : List ℕ) → count h (xs ++ ys) ≡ count h xs + count h ys
count-append h [] ys = omega arith
count-append h (x ∷ xs) ys = omega (arith, count-append h xs ys)

-- An answer that says that the PLC has created the handle, and a slot that says so.
unfoldable pub is_created : Answer → Bool
is_created a = not a.is_skipped && (a.error == 0 && not (a.handle == 0))

unfoldable pub is_success : Slot → Bool
is_success s = elim s.skipped [ some _ ↦ false | none ↦ s.error == 0 && not (s.handle == 0) ]

-- The handles that the PLC has created for the requests of a batch.
abbrev pub created : List Config → List Answer → List ℕ
created cs [] = []
created [] (a ∷ answers) = []
created (c ∷ cs) (a ∷ answers) =
    let rest = created cs answers in if is_created a then a.handle ∷ rest else rest

abbrev pub successes : List Slot → List ℕ
successes [] = []
successes (s ∷ ss) = let rest = successes ss in if is_success s then s.handle ∷ rest else rest

abbrev is_win : Outcome → Bool
is_win o = is_success o.slot

-- The committed outcomes are the successes.
abbrev Sound : Outcome → Type 0
Sound o = o.is_committed ≡ is_success o.slot

abbrev one_if : Bool → ℕ → ℕ → ℕ
one_if b x h = if b then (if x == h then 1 else 0) else 0

-- How often a handle is among those of the outcomes that pass a test.
abbrev held : ℕ → (Outcome → Bool) → List Outcome → ℕ
held h test os = count h (handles_if test os)

held-cons :
    (h : ℕ) (test : Outcome → Bool) (o : Outcome) (os : List Outcome)
    → held h test (o ∷ os) ≡ one_if (test o) o.slot.handle h + held h test os
held-cons h test o os = ground arith

idle_lem :
    (c : Config) (h : ℕ)
    → let o = declined c 0 0 none in
      Sound o × (one_if (is_win o) 0 h + one_if (is_declined o) 0 h ≡ 0)
unfolding is_success is_refusal is_declined
idle_lem c h = (refl, refl)

all_if :
    (P : ℕ → Type 0) (test : Outcome → Bool) (o : Outcome) (os : List Outcome)
    → (test o ≡ true → P o.slot.handle)
    → All P (handles_if test os)
    → All P (handles_if test (o ∷ os))
all_if P test o os here rest = elim (Bool-cases (test o)) [
  | inl e ↦ rw e (here e, rest)
  | inr e ↦ rw e rest
]

module _ (symbol_key : Bytes → Bytes) where
  item_lem :
      (channel : ℕ) (c : Config) (a : Answer) (m : Manager) (h : ℕ)
      → let o = (on_item symbol_key channel c a m).0 in
        Sound o
        × (one_if (is_created a) a.handle h
            ≡ one_if (is_success o.slot) o.slot.handle h + one_if (is_declined o) o.slot.handle h)
  unfolding on_item is_success is_created is_refusal is_declined
  item_lem channel c a m h = ground arith

  items_lem :
      (channel : ℕ) (cs : List Config) (answers : List Answer) (m : Manager) (h : ℕ)
      → let os = (on_items symbol_key channel cs answers m).0 in
        All Sound os
        × (count h (created cs answers) ≡ held h is_win os + held h is_declined os)
        × (length os ≡ length cs)
  unfolding on_items
  items_lem channel [] [] m h = (tt, refl, refl)
  items_lem channel [] (a ∷ answers) m h = (tt, refl, refl)
  items_lem channel (c ∷ cs) [] m h =
      let (s, e, l) = items_lem channel cs [] m h in
      let (t, f) = idle_lem c h in
      let os = (on_items symbol_key channel cs [] m).0 in
      let o = declined c 0 0 none in
      ((t, s), omega (arith, e, f, held-cons h is_win o os, held-cons h is_declined o os), ap suc l)
  items_lem channel (c ∷ cs) (a ∷ answers) m h =
      let o = (on_item symbol_key channel c a m).0 in
      let m' = (on_item symbol_key channel c a m).1 in
      let (s, e) = item_lem channel c a m h in
      let (ss, es, l) = items_lem channel cs answers m' h in
      let os = (on_items symbol_key channel cs answers m').0 in
      let k : count h (created (c ∷ cs) (a ∷ answers))
          ≡ one_if (is_created a) a.handle h + count h (created cs answers) =
        ground arith in
      (
        (s, ss),
        omega (arith, k, e, es, held-cons h is_win o os, held-cons h is_declined o os),
        ap suc l,
      )

-- Entries without a result are no successes and hold no handle.
mark_lem :
    (aborted : Bool) (o : Outcome) (h : ℕ)
    → Sound o
    → Sound (mark aborted o)
      × (one_if (is_win (mark aborted o)) (mark aborted o).slot.handle h
          ≡ one_if (is_win o) o.slot.handle h)
      × (one_if (is_declined (mark aborted o)) (mark aborted o).slot.handle h
          ≡ one_if (is_declined o) o.slot.handle h)
unfolding mark is_reported is_success is_refusal is_declined
mark_lem aborted o h s = ground arith

marked_lem :
    (aborted : Bool) (os : List Outcome) (h : ℕ)
    → All Sound os
    → let os' = mark_aborted aborted os in
      All Sound os'
      × (held h is_win os' ≡ held h is_win os)
      × (held h is_declined os' ≡ held h is_declined os)
      × (length os' ≡ length os)
unfolding mark_aborted
marked_lem aborted [] h s = (tt, refl, refl, refl)
marked_lem aborted (o ∷ os) h (s, ss) =
    let (t, e, f) = mark_lem aborted o h s in
    let (ts, es, fs, l) = marked_lem aborted os h ss in
    let o' = mark aborted o in
    let os' = mark_aborted aborted os in
    (
      (t, ts),
      omega (arith, e, es, held-cons h is_win o os, held-cons h is_win o' os'),
      omega (arith, f, fs, held-cons h is_declined o os, held-cons h is_declined o' os'),
      ap suc l,
    )

strand_lem :
    (swept : Bool) (o : Outcome) (h : ℕ)
    → Sound o
    → (swept ≡ true → o.is_committed ≡ true)
    → let o' = strand swept o in
      one_if (is_win o) o.slot.handle h + one_if (is_declined o) o.slot.handle h
      ≡ one_if (is_win o') o'.slot.handle h
        + (one_if (is_declined o') o'.slot.handle h + one_if (is_stranded o') o'.slot.handle h)
unfolding strand is_success is_refusal is_declined is_stranded
strand_lem swept o h s k = ground arith

module _ (symbol_key : Bytes → Bytes) (equal_fold : Bytes → Bytes → Bool) where
  removed-active :
      (name : Bytes) (m : Manager)
      → (remove_notification_config symbol_key equal_fold name m).active ≡ m.active
  unfolding remove_notification_config
  removed-active name m = ground arith

  -- What the amendment does to one entry.
  abbrev is_swept : Outcome → Manager → Bool
  is_swept o m = o.is_committed && not (has o.slot.handle m.active)

  abbrev cleared : Outcome → Manager → Manager
  cleared o m =
      if is_swept o m
      then remove_notification_config symbol_key equal_fold o.config.symbol_name m
      else m

  cleared-active : (o : Outcome) (m : Manager) → (cleared o m).active ≡ m.active
  cleared-active o m = ground (arith, removed-active o.config.symbol_name m)

  amend-active :
      (os : List Outcome) (m : Manager) → (amend symbol_key equal_fold os m).1.active ≡ m.active
  unfolding amend
  amend-active [] m = refl
  amend-active (o ∷ os) m = amend-active os (cleared o m) ∙ cleared-active o m

  swept-committed : (o : Outcome) (m : Manager) → is_swept o m ≡ true → o.is_committed ≡ true
  swept-committed o m e = ground arith

  kept_bound :
      (o : Outcome) (m : Manager)
      → Sound o
      → is_win (strand (is_swept o m) o) ≡ true
      → has (strand (is_swept o m) o).slot.handle m.active ≡ true
  unfolding strand is_success
  kept_bound o m s e = ground arith

  amend_lem :
      (os : List Outcome) (m : Manager) (h : ℕ)
      → All Sound os
      → let (os', m') = amend symbol_key equal_fold os m in
        All (λ j. has j m.active ≡ true) (handles_if is_win os')
        × (held h is_win os + held h is_declined os
            ≡ held h is_win os' + (held h is_declined os' + held h is_stranded os'))
        × (length os' ≡ length os)
  unfolding amend
  amend_lem [] m h s = (tt, refl, refl)
  amend_lem (o ∷ os) m h (s, ss) =
      let k = cleared o m in
      let o' = strand (is_swept o m) o in
      let os' = (amend symbol_key equal_fold os k).0 in
      let (b, e, l) = amend_lem os k h ss in
      let f = strand_lem (is_swept o m) o h s (swept-committed o m) in
      let bound : All (λ j. has j m.active ≡ true) (handles_if is_win os') =
        rw (cleared-active o m) at b in
      (
        all_if (λ j. has j m.active ≡ true) is_win o' os' (kept_bound o m s) bound,
        omega (
          arith,
          e,
          f,
          held-cons h is_win o os,
          held-cons h is_declined o os,
          held-cons h is_win o' os',
          held-cons h is_declined o' os',
          held-cons h is_stranded o' os',
        ),
        ap suc l,
      )

-- The successes among the slots are those of the outcomes.
spread_lem :
    (ps : List Planned) (os : List Outcome)
    → length os ≡ length (requests_of ps)
    → (successes (spread ps os) ≡ handles_if is_win os) × (length (spread ps os) ≡ length ps)
unfolding spread is_success
spread_lem [] [] e = (refl, refl)
spread_lem [] (o ∷ os) e = absurd (omega arith)
spread_lem (skipped_as why ∷ ps) os e = let (f, g) = spread_lem ps os e in (f, ap suc g)
spread_lem (requested c ∷ ps) [] e = absurd (omega arith)
spread_lem (requested c ∷ ps) (o ∷ os) e =
    let (f, g) = spread_lem ps os (omega arith) in (rw f refl, ap suc g)

-- The answers that reach the handler.
abbrev pub heard : Around → List Answer
heard w = if w.connected then w.answers else []

module _ (symbol_key : Bytes → Bytes) (equal_fold : Bytes → Bytes → Bool) where
  -- Whatever the answers, and whatever others do meanwhile: there is a result for each config; a
  -- handle that a result reports as created is bound when the batch settles; and each handle that the
  -- PLC has created for a request is reported so in one result or released, as often as it was
  -- created, and no other handle is.
  pub send_batch_owns :
      (w : Around) (channel : ℕ) (ps : List Planned) (m : Manager) (h : ℕ)
      → let b = send_batch symbol_key equal_fold w channel ps m in
        (length b.results ≡ length ps)
        × All (λ j. has j b.settled.active ≡ true) (successes b.results)
        × (count h (created (requests_of ps) (heard w))
            ≡ count h (successes b.results) + count h b.released)
  unfolding send_batch
  send_batch_owns w channel ps m h =
      let (raw, m1) = on_items symbol_key channel (requests_of ps) (heard w) m in
      let marked = mark_aborted (w.connected && w.aborted) raw in
      let settled = (amend symbol_key equal_fold marked (w.later m1)).0 in
      let (s, e, l) = items_lem symbol_key channel (requests_of ps) (heard w) m h in
      let (s', f, g, l') = marked_lem (w.connected && w.aborted) raw h s in
      let (b, i, l'') = amend_lem symbol_key equal_fold marked (w.later m1) h s' in
      let (j, k) = spread_lem ps settled (l'' ∙ l' ∙ l) in
      (
        k,
        rw (j, amend-active symbol_key equal_fold marked (w.later m1)) b,
        omega (
          arith,
          e,
          f,
          g,
          i,
          ap (count h) j,
          count-append h (handles_if is_declined settled) (handles_if is_stranded settled),
        ),
      )
