-- ===== src/Common/Dict/Measure.antt =====
-- Sums over the values of a map, and its size, after an insertion and a removal.
use Prim.Native.Nat.{ℕ, suc, ◌+◌, ◌≤◌}
use mathlib.Core.Path.{◌≡◌, refl}
use mathlib.Core.Logic.{inl, inr}
use mathlib.Core.Option.{none, some}
use mathlib.Core.List.{[], ◌∷◌}
use native.Mathlib.Omega.{arith}
use go_ads.Common.Tests.{Bool-cases}
use go_ads.Common.Lists.{length}
use go_ads.Common.Dict.{Key, Dict, lookup, insert, erase, IsDict, erase_absent}

module _ {ℓ κ} {K : Type ℓ} {V : Type κ} ⦃key : Key K⦄ where
  -- The sum of a measure over the values.
  unfoldable pub total : (V → ℕ) → Dict K V → ℕ
  total f [] = 0
  total f ((_, v) ∷ d) = f v + total f d

  pub total-insert_new :
      (f : V → ℕ) (k : K) (v : V) (d : Dict K V)
      → lookup k d ≡ none
      → total f (insert k v d) ≡ f v + total f d
  unfolding total insert lookup
  total-insert_new f k v [] h = refl
  total-insert_new f k v ((j, u) ∷ d) h = ground (arith, total-insert_new f k v d)

  pub total-insert_old :
      (f : V → ℕ) (k : K) (v old : V) (d : Dict K V)
      → lookup k d ≡ some old
      → total f (insert k v d) + f old ≡ f v + total f d
  unfolding total insert lookup
  total-insert_old f k v old [] h = cc
  total-insert_old f k v old ((j, u) ∷ d) h = ground (arith, total-insert_old f k v old d)

  pub total-erase :
      (f : V → ℕ) (k : K) (old : V) (d : Dict K V)
      → IsDict d
      → lookup k d ≡ some old
      → total f (erase k d) + f old ≡ total f d
  unfolding total erase lookup IsDict
  total-erase f k old [] h e = cc
  total-erase f k old ((j, u) ∷ d) (h, hs) e = elim (Bool-cases (key.same k j)) [
    | inl p ↦ ground (arith, erase_absent k d, key.sound k j p)
    | inr p ↦ ground (arith, total-erase f k old d hs)
  ]

  pub length-insert_new :
      (k : K) (v : V) (d : Dict K V) → lookup k d ≡ none → length (insert k v d) ≡ suc (length d)
  unfolding insert lookup
  length-insert_new k v [] h = refl
  length-insert_new k v ((j, u) ∷ d) h = ground (arith, length-insert_new k v d)

  pub length-insert_old :
      (k : K) (v old : V) (d : Dict K V) → lookup k d ≡ some old → length (insert k v d) ≡ length d
  unfolding insert lookup
  length-insert_old k v old [] h = cc
  length-insert_old k v old ((j, u) ∷ d) h = ground (arith, length-insert_old k v old d)

  pub length-erase-le : (k : K) (d : Dict K V) → length (erase k d) ≤ length d
  unfolding erase
  length-erase-le k [] = omega arith
  length-erase-le k ((j, u) ∷ d) = ground (arith, length-erase-le k d)
