-- ===== src/Common/Dict.antt =====
-- Go maps as association lists without repeated keys, over a Boolean test of the keys.
pub mod Measure
use Prim.Native.Nat.{ℕ, suc, ◌+◌, ◌≤◌}
use mathlib.Core.Path.{◌≡◌, refl, ap, sym, ◌∙◌}
use mathlib.Core.Bool.{Bool, true, false, not, ◌&&◌}
use mathlib.Core.Logic.{◌⊎◌, inl, inr}
use mathlib.Core.Option.{Option, none, some}
use mathlib.Core.List.{List, [], ◌∷◌, map}
use native.Mathlib.Omega.{arith}
use go_ads.Common.Tests.{◌==◌, if◌then◌else◌, ==_refl, ==_iff, Bool-cases, Option-cases}
use go_ads.Common.Lists.{Bytes, length}

-- A type of keys: a test that holds of equal keys and of no others.
pub record Key {ℓ} (K : Type ℓ) : Type ℓ where
  pub same : K → K → Bool
  pub reflexive : (k : K) → same k k ≡ true
  pub sound : (j k : K) → same j k ≡ true → j ≡ k

instance abbrev pub ℕ-Key : Key ℕ
ℕ-Key = record { same = ◌==◌; reflexive = ==_refl; sound = λ j k. (==_iff j k).0 }

unfoldable pub eq_text : Bytes → Bytes → Bool
eq_text [] [] = true
eq_text (a ∷ cs) (b ∷ bs) = a == b && eq_text cs bs
eq_text _ _ = false

pub eq_text_refl : (s : Bytes) → eq_text s s ≡ true
unfolding eq_text
eq_text_refl [] = refl
eq_text_refl (c ∷ s) = rw (==_refl c, eq_text_refl s)

pub eq_text→≡ : (s t : Bytes) → eq_text s t ≡ true → s ≡ t
unfolding eq_text
eq_text→≡ [] [] h = refl
eq_text→≡ [] (b ∷ t) h = cc
eq_text→≡ (a ∷ s) [] h = cc
eq_text→≡ (a ∷ s) (b ∷ t) h = ground (arith, eq_text→≡ s t)

instance abbrev pub Bytes-Key : Key Bytes
Bytes-Key = record { same = eq_text; reflexive = eq_text_refl; sound = eq_text→≡ }

abbrev pub Dict {ℓ κ} : Type ℓ → Type κ → Type (ℓ ⊔ κ)
Dict K V = List (K × V)

module _ {ℓ} {K : Type ℓ} ⦃key : Key K⦄ where
  pub same_comm : (j k : K) → key.same j k ≡ key.same k j
  same_comm j k = elim (Bool-cases (key.same j k)) [
    | inl e ↦ let p : j ≡ k = key.sound j k e in rw (p, key.reflexive k)
    | inr e ↦ elim (Bool-cases (key.same k j)) [
      | inl f ↦ let p : k ≡ j = key.sound k j f in absurd (cc (e, key.reflexive j, p))
      | inr f ↦ rw (e, f)
    ]
  ]

  same_swap : (i j k : K) → key.same k i ≡ true → key.same j k ≡ key.same j i
  same_swap i j k e = ap (λ l. key.same j l) (key.sound k i e)

module _ {ℓ κ} {K : Type ℓ} {V : Type κ} ⦃key : Key K⦄ where
  unfoldable pub lookup : K → Dict K V → Option V
  lookup k [] = none
  lookup k ((j, v) ∷ d) = if key.same k j then some v else lookup k d

  -- `_, ok := d[k]`
  unfoldable pub has : K → Dict K V → Bool
  has k [] = false
  has k ((j, _) ∷ d) = if key.same k j then true else has k d

  -- `d[k] = v`
  unfoldable pub insert : K → V → Dict K V → Dict K V
  insert k v [] = (k, v) ∷ []
  insert k v ((j, u) ∷ d) = if key.same k j then (k, v) ∷ d else (j, u) ∷ insert k v d

  -- `delete(d, k)`
  unfoldable pub erase : K → Dict K V → Dict K V
  erase k [] = []
  erase k ((j, u) ∷ d) = if key.same k j then erase k d else (j, u) ∷ erase k d

  -- No key stands twice.
  unfoldable pub IsDict : Dict K V → Type 0
  unfolding has
  IsDict [] = Unit {0}
  IsDict ((j, _) ∷ d) = (has j d ≡ false) × IsDict d

  pub lookup-insert_self : (k : K) (v : V) (d : Dict K V) → lookup k (insert k v d) ≡ some v
  unfolding lookup insert
  lookup-insert_self k v [] = rw (key.reflexive k)
  lookup-insert_self k v ((j, u) ∷ d) = elim (Bool-cases (key.same k j)) [
    | inl e ↦ rw (e, key.reflexive k)
    | inr e ↦ rw (e, e, lookup-insert_self k v d)
  ]

  pub lookup-insert_ne :
      (j k : K) (v : V) (d : Dict K V) → key.same j k ≡ false → lookup j (insert k v d) ≡ lookup j d
  unfolding lookup insert
  lookup-insert_ne j k v [] h = rw h
  lookup-insert_ne j k v ((i, u) ∷ d) h = elim (Bool-cases (key.same k i)) [
    | inl e ↦ rw (e, h, ← same_swap i j k e, h)
    | inr e ↦ rw (e, lookup-insert_ne j k v d h)
  ]

  pub has-insert_self : (k : K) (v : V) (d : Dict K V) → has k (insert k v d) ≡ true
  unfolding has insert
  has-insert_self k v [] = rw (key.reflexive k)
  has-insert_self k v ((j, u) ∷ d) = elim (Bool-cases (key.same k j)) [
    | inl e ↦ rw (e, key.reflexive k)
    | inr e ↦ rw (e, e, has-insert_self k v d)
  ]

  pub has-insert_ne :
      (j k : K) (v : V) (d : Dict K V) → key.same j k ≡ false → has j (insert k v d) ≡ has j d
  unfolding has insert
  has-insert_ne j k v [] h = rw h
  has-insert_ne j k v ((i, u) ∷ d) h = elim (Bool-cases (key.same k i)) [
    | inl e ↦ rw (e, h, ← same_swap i j k e, h)
    | inr e ↦ rw (e, has-insert_ne j k v d h)
  ]

  pub has-erase_self : (k : K) (d : Dict K V) → has k (erase k d) ≡ false
  unfolding has erase
  has-erase_self k [] = refl
  has-erase_self k ((j, u) ∷ d) = elim (Bool-cases (key.same k j)) [
    | inl e ↦ rw (e, has-erase_self k d)
    | inr e ↦ rw (e, e, has-erase_self k d)
  ]

  pub has-erase_ne : (j k : K) (d : Dict K V) → key.same j k ≡ false → has j (erase k d) ≡ has j d
  unfolding has erase
  has-erase_ne j k [] h = refl
  has-erase_ne j k ((i, u) ∷ d) h = elim (Bool-cases (key.same k i)) [
    | inl e ↦ rw (e, has-erase_ne j k d h, ← same_swap i j k e, h)
    | inr e ↦ rw (e, has-erase_ne j k d h)
  ]

  pub has-erase_le : (j k : K) (d : Dict K V) → has j d ≡ false → has j (erase k d) ≡ false
  unfolding has erase
  has-erase_le j k [] h = refl
  has-erase_le j k ((i, u) ∷ d) h = ground (arith, has-erase_le j k d)

  pub insert-IsDict : (k : K) (v : V) (d : Dict K V) → IsDict d → IsDict (insert k v d)
  unfolding IsDict insert has
  insert-IsDict k v [] h = (refl, tt)
  insert-IsDict k v ((j, u) ∷ d) (h, hs) =
      ground (arith, insert-IsDict k v d hs, has-insert_ne j k v d, same_comm j k, key.sound k j)

  pub erase-IsDict : (k : K) (d : Dict K V) → IsDict d → IsDict (erase k d)
  unfolding IsDict erase
  erase-IsDict k [] h = tt
  erase-IsDict k ((j, u) ∷ d) (h, hs) = ground (arith, erase-IsDict k d hs, has-erase_le j k d)

  pub lookup_absent : (k : K) (d : Dict K V) → has k d ≡ false → lookup k d ≡ none
  unfolding lookup has
  lookup_absent k [] h = refl
  lookup_absent k ((j, u) ∷ d) h = ground (arith, lookup_absent k d)

  pub has_present : (k : K) (d : Dict K V) (v : V) → lookup k d ≡ some v → has k d ≡ true
  unfolding lookup has
  has_present k [] v h = cc
  has_present k ((j, u) ∷ d) v h = ground (arith, has_present k d v)

  pub erase_absent : (k : K) (d : Dict K V) → has k d ≡ false → erase k d ≡ d
  unfolding erase has
  erase_absent k [] h = refl
  erase_absent k ((j, u) ∷ d) h = ground (arith, erase_absent k d)

  pub lookup-erase_self : (k : K) (d : Dict K V) → lookup k (erase k d) ≡ none
  lookup-erase_self k d = lookup_absent k (erase k d) (has-erase_self k d)

  pub lookup-erase_ne :
      (j k : K) (d : Dict K V) → key.same j k ≡ false → lookup j (erase k d) ≡ lookup j d
  unfolding lookup erase
  lookup-erase_ne j k [] h = refl
  lookup-erase_ne j k ((i, u) ∷ d) h = elim (Bool-cases (key.same k i)) [
    | inl e ↦ rw (e, lookup-erase_ne j k d h, ← same_swap i j k e, h)
    | inr e ↦ rw (e, lookup-erase_ne j k d h)
  ]

  -- What is found after a removal was there before it, under another key.
  pub lookup-erase_found :
      (j k : K) (d : Dict K V) {v : V}
      → lookup j (erase k d) ≡ some v
      → (key.same j k ≡ false) × (lookup j d ≡ some v)
  lookup-erase_found j k d e = elim (Bool-cases (key.same j k)) [
    | inl p ↦ absurd (cc (lookup-erase_self k d, key.sound j k p, e))
    | inr p ↦ (p, sym (lookup-erase_ne j k d p) ∙ e)
  ]

  -- What is found after an insertion is the new value or was there before.
  pub lookup-insert_found :
      (j k : K) (v : V) (d : Dict K V) {u : V}
      → lookup j (insert k v d) ≡ some u
      → ((j ≡ k) × (v ≡ u)) ⊎ ((key.same j k ≡ false) × (lookup j d ≡ some u))
  lookup-insert_found j k v d e = elim (Bool-cases (key.same j k)) [
    | inl p ↦ let q : j ≡ k = key.sound j k p in inl (q, cc (lookup-insert_self k v d, q, e))
    | inr p ↦ inr (p, sym (lookup-insert_ne j k v d p) ∙ e)
  ]

  -- Where a key is on file, a value is found.
  pub lookup_present : (k : K) (d : Dict K V) → has k d ≡ true → (v : V) × (lookup k d ≡ some v)
  unfolding lookup has
  lookup_present k [] h = cc
  lookup_present k ((j, u) ∷ d) h = elim (Bool-cases (key.same k j)) [
    | inl e ↦ (u, rw e)
    | inr e ↦ let (v, q) = lookup_present k d (rw e at h) in (v, rw e q)
  ]

  -- An insertion under a new key changes nothing that was found.
  pub lookup-insert_new :
      (j k : K) (v : V) (d : Dict K V) {u : V}
      → has k d ≡ false
      → lookup j d ≡ some u
      → lookup j (insert k v d) ≡ some u
  lookup-insert_new j k v d h e = elim (Bool-cases (key.same j k)) [
    | inl p ↦ let q : j ≡ k = key.sound j k p in absurd (cc (lookup_absent k d h, q, e))
    | inr p ↦ lookup-insert_ne j k v d p ∙ e
  ]

  pub has_of_lookup : (k : K) (d : Dict K V) → lookup k d ≡ none → has k d ≡ false
  has_of_lookup k d h = elim (Bool-cases (has k d)) [
    | inl e ↦ let (v, p) = lookup_present k d e in absurd (cc (h, p))
    | inr e ↦ e
  ]

pub eq_text_comm : (s t : Bytes) → eq_text s t ≡ eq_text t s
eq_text_comm s t = same_comm s t
