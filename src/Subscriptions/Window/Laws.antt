-- ===== src/Subscriptions/Window/Laws.antt =====
-- The buffer of early samples stays within its limits and counts what it holds.
use go_ads.Common.{
  ℕ, ◌+◌, ◌-◌, ◌≤◌, ◌<◌, ◌≡◌, refl, Bool, true, false, none, some, inl, inr, [], ◌∷◌, Bytes, arith,
  Bool-cases, Option-cases, length, if◌then◌else◌,
}
use go_ads.Common.Dict.{
  ℕ-Key, lookup, has, insert, IsDict, insert-IsDict, has_of_lookup, lookup-insert_self,
  lookup-erase_self,
}
use go_ads.Common.Dict.Measure.{
  total, total-insert_new, total-insert_old, length-insert_new, length-insert_old,
}
use go_ads.Subscriptions.Window.{
  EarlySample, Window, early_sample_max_handles, early_sample_max_bytes, freed, is_full, park,
  replay_early_samples, buffer_early_sample,
}

abbrev pub size : EarlySample → ℕ
size s = length s.content

abbrev pub early : ℕ → Bytes → EarlySample
early timestamp content = record { timestamp = timestamp; content = content }

-- The counters are those of the maps, and the buffer is within its limits.
pub record Fits (w : Window) : Type 0 where
  pub samples : IsDict w.early_samples
  pub counted : w.early_bytes ≡ total size w.early_samples
  pub few : length w.early_samples ≤ early_sample_max_handles
  pub small : w.early_bytes ≤ early_sample_max_bytes
  pub opens : IsDict w.open_subscribes
  pub in_flight : w.subscribe_in_flight ≡ length w.open_subscribes

module _ (handle timestamp : ℕ) (content : Bytes) (w : Window) (v : Fits w) where
  abbrev pub sample : EarlySample
  sample = early timestamp content

  room :
      is_full handle content w ≡ false
      → w.early_bytes + length content - freed handle w.early_samples ≤ early_sample_max_bytes
  unfolding is_full
  room e = ground arith

  slot :
      is_full handle content w ≡ false
      → has handle w.early_samples ≡ false
      → length w.early_samples < early_sample_max_handles
  unfolding is_full
  slot e f = ground arith

  park_new :
      is_full handle content w ≡ false
      → lookup handle w.early_samples ≡ none
      → (w.early_bytes + length content - freed handle w.early_samples
          ≡ total size (insert handle sample w.early_samples))
        × (length (insert handle sample w.early_samples) ≤ early_sample_max_handles)
  unfolding freed
  park_new e f =
      rw (freed, f)
        (
          omega (arith, v.counted, total-insert_new size handle sample w.early_samples f),
          omega (
            arith,
            slot e (has_of_lookup handle w.early_samples f),
            length-insert_new handle sample w.early_samples f,
          ),
        )

  park_old :
      (old : EarlySample)
      → lookup handle w.early_samples ≡ some old
      → (w.early_bytes + length content - freed handle w.early_samples
          ≡ total size (insert handle sample w.early_samples))
        × (length (insert handle sample w.early_samples) ≤ early_sample_max_handles)
  unfolding freed
  park_old old f =
      rw (freed, f)
        (
          omega (arith, v.counted, total-insert_old size handle sample old w.early_samples f),
          omega (arith, v.few, length-insert_old handle sample old w.early_samples f),
        )

  park_cases :
      is_full handle content w ≡ false
      → (w.early_bytes + length content - freed handle w.early_samples
          ≡ total size (insert handle sample w.early_samples))
        × (length (insert handle sample w.early_samples) ≤ early_sample_max_handles)
  park_cases e = elim (Option-cases (lookup handle w.early_samples)) [
    | inl f ↦ park_new e f
    | inr (old, f) ↦ park_old old f
  ]

  pub park-Fits : Fits (park handle timestamp content w).1
  park-Fits = elim (Bool-cases (is_full handle content w)) [
    | inl e ↦ unfold park in rw e v
    | inr e ↦
        let (counted, few) = park_cases e in
        unfold park in
        rw e (record {
          samples = insert-IsDict handle sample w.early_samples v.samples;
          counted = counted;
          few = few;
          small = room e;
          opens = v.opens;
          in_flight = v.in_flight;
        })
  ]

  -- A sample that is parked is the one that is found, whatever was there before.
  pub parked :
      (park handle timestamp content w).0 ≡ true
      → lookup handle (park handle timestamp content w).1.early_samples ≡ some sample
  unfolding park
  parked e = ground (arith, lookup-insert_self handle sample w.early_samples)

-- A sample that is taken is dispatched at once where its handle has been bound meanwhile, and
-- otherwise is the one that the buffer holds for the handle.
pub buffer_early_sample_lem :
    (bound : ℕ → Bool) (handle timestamp : ℕ) (content : Bytes) (w : Window)
    → is_full handle content w ≡ false
    → ((buffer_early_sample bound handle timestamp content w).0
        ≡ (if bound handle then (handle, early timestamp content) ∷ [] else []))
      × (lookup handle (buffer_early_sample bound handle timestamp content w).1.early_samples
          ≡ (if bound handle then none else some (early timestamp content)))
unfolding buffer_early_sample replay_early_samples park
buffer_early_sample_lem bound handle timestamp content w e =
    let here = lookup-insert_self handle (early timestamp content) w.early_samples in
    elim (Bool-cases (bound handle)) [
      | inl f ↦ rw (e, f, here) (refl, lookup-erase_self handle _)
      | inr f ↦ rw (e, f) (refl, here)
    ]
