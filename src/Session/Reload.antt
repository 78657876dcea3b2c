-- ===== src/Session/Reload.antt =====
-- `tryRecordReloadAttempt` of session.go: reloads of the symbol table are limited to a number in a
-- sliding window. Times are nanoseconds; those of the attempts are kept.
use go_ads.Common.{
  ℕ, ◌+◌, ◌≤◌, ◌<◌, ◌≡◌, refl, sym, ◌∙◌, Bool, true, false, List, [], ◌∷◌, ◌++◌, length, leb, ltb,
  if◌then◌else◌, arith, Bool-cases, inl, inr, length-append, append_assoc, append-nil,
}

-- `t.After(now - window)`
unfoldable pub prune : ℕ → ℕ → List ℕ → List ℕ
prune window now [] = []
prune window now (t ∷ ts) =
    if ltb now (t + window) then t ∷ prune window now ts else prune window now ts

module _ (window max_attempts : ℕ) where
  unfoldable pub try_record : ℕ → List ℕ → Bool × List ℕ
  unfolding prune
  try_record now attempts =
      let pruned = prune window now attempts in
      if leb max_attempts (length pruned) then (false, pruned) else (true, pruned ++ (now ∷ []))

  -- The attempts that are granted, oldest first, of those made at the given times.
  unfoldable pub granted : List ℕ → List ℕ → List ℕ
  granted attempts [] = []
  granted attempts (now ∷ times) =
      let (yes_, attempts') = try_record now attempts in
      let rest = granted attempts' times in if yes_ then now ∷ rest else rest

  -- Times that do not go back, from `last` until `now`.
  abbrev pub Until : ℕ → List ℕ → ℕ → Type 0
  Until last [] now = last ≤ now
  Until last (t ∷ ts) now = (last ≤ t) × Until t ts now

prune-append :
    (window now : ℕ) (xs ys : List ℕ)
    → prune window now (xs ++ ys) ≡ prune window now xs ++ prune window now ys
unfolding prune
prune-append window now [] ys = refl
prune-append window now (x ∷ xs) ys = ground (arith, prune-append window now xs ys)

-- To prune earlier changes nothing later.
prune_twice :
    (window early late : ℕ) (xs : List ℕ)
    → early ≤ late
    → prune window late (prune window early xs) ≡ prune window late xs
unfolding prune
prune_twice window early late [] h = refl
prune_twice window early late (x ∷ xs) h = ground (arith, prune_twice window early late xs)

length-prune-le : (window now : ℕ) (xs : List ℕ) → length (prune window now xs) ≤ length xs
unfolding prune
length-prune-le window now [] = omega arith
length-prune-le window now (x ∷ xs) = ground (arith, length-prune-le window now xs)

module _ (window max_attempts : ℕ) where
  -- The attempts that are kept stand for the whole log, as far as later windows go.
  abbrev StandsFor : ℕ → List ℕ → List ℕ → Type 0
  StandsFor last attempts log =
      (length attempts ≤ max_attempts)
      × ((n : ℕ) → last ≤ n → prune window n log ≡ prune window n attempts)

  refused :
      (last t : ℕ) (attempts log : List ℕ)
      → last ≤ t
      → StandsFor last attempts log
      → StandsFor t (prune window t attempts) log
  refused last t attempts log h (few, same) = (
    omega (arith, length-prune-le window t attempts),
    λ n k. same n (omega arith) ∙ sym (prune_twice window t n attempts k),
  )

  recorded :
      (last t : ℕ) (attempts log : List ℕ)
      → last ≤ t
      → length (prune window t attempts) < max_attempts
      → StandsFor last attempts log
      → StandsFor t (prune window t attempts ++ (t ∷ [])) (log ++ (t ∷ []))
  recorded last t attempts log h few (_, same) = (
    omega (arith, length-append (prune window t attempts) (t ∷ [])),
    λ n k. rw (
      prune-append window n log (t ∷ []),
      prune-append window n (prune window t attempts) (t ∷ []),
      same n (omega arith),
      prune_twice window t n attempts k,
    ),
  )

  granted_few :
      (times : List ℕ) (last now : ℕ) (attempts log : List ℕ)
      → Until window max_attempts last times now
      → StandsFor last attempts log
      → length (prune window now (log ++ granted window max_attempts attempts times)) ≤ max_attempts
  unfolding granted try_record
  granted_few [] last now attempts log h (few, same) =
      rw (append-nil log, same now h) (omega (arith, length-prune-le window now attempts))
  granted_few (t ∷ times) last now attempts log (h, hs) s =
      elim (Bool-cases (leb max_attempts (length (prune window t attempts)))) [
        | inl e ↦ rw e (granted_few times t now _ log hs (refused last t attempts log h s))
        | inr e ↦
            rw
              (
                e,
                ← append_assoc log (t ∷ [])
                    (granted window max_attempts (prune window t attempts ++ (t ∷ [])) times),
              )
              (granted_few times t now _ (log ++ (t ∷ [])) hs
                (recorded last t attempts log h (ground (arith, e)) s))
      ]

  -- However often a reload is tried, at times that do not go back, at no time more than the limit
  -- have been granted within the window before it.
  pub granted_within_window :
      (times : List ℕ) (now : ℕ)
      → Until window max_attempts 0 times now
      → length (prune window now (granted window max_attempts [] times)) ≤ max_attempts
  granted_within_window times now h = granted_few times 0 now [] [] h (omega arith, λ n k. refl)
