-- ===== src/Codec/Bits.antt =====
-- `ReadBit` and `WriteBit` of symbol_codec.go. A bit of a byte is counted from the least.
use go_ads.Common.{
  ℕ, zero, suc, ◌+◌, ◌*◌, ◌/◌, ◌%◌, ◌<◌, ◌≤◌, ◌≡◌, ◌≢◌, refl, ap, Bool, true, false, ◌&&◌, [], ◌∷◌,
  Bytes, length, get_elem?, ltb, ◌==◌, if◌then◌else◌, arith, none, some, Option-cases, Bool-cases,
  inl, inr, lt→ltb, ==_refl, le→ltb-false,
}

-- `b & (1 << k) != 0`
unfoldable pub test_bit : ℕ → ℕ → Bool
test_bit zero b = b % 2 == 1
test_bit (suc k) b = test_bit k (b / 2)

-- `b | (1 << k)` and `b &^ (1 << k)`
unfoldable pub set_bit : ℕ → Bool → ℕ → ℕ
set_bit zero v b = 2 * (b / 2) + (if v then 1 else 0)
set_bit (suc k) v b = 2 * set_bit k v (b / 2) + b % 2

-- `data[i] = f(data[i])`
unfoldable pub at_byte : ℕ → (ℕ → ℕ) → Bytes → Bytes
at_byte i f [] = []
at_byte zero f (b ∷ bs) = f b ∷ bs
at_byte (suc i) f (b ∷ bs) = b ∷ at_byte i f bs

unfoldable pub read_bit : Bytes → ℕ → Bool
unfolding test_bit
read_bit bs i = elim (get_elem? bs (i / 8)) [ some b ↦ test_bit (i % 8) b | none ↦ false ]

unfoldable pub write_bit : Bytes → ℕ → Bool → Bytes
unfolding set_bit at_byte
write_bit bs i v = at_byte (i / 8) (set_bit (i % 8) v) bs

test-set_same : (k b : ℕ) (v : Bool) → test_bit k (set_bit k v b) ≡ v
unfolding test_bit set_bit
test-set_same zero b true = ground arith
test-set_same zero b false = ground arith
test-set_same (suc k) b v =
    let inner : (2 * set_bit k v (b / 2) + b % 2) / 2 ≡ set_bit k v (b / 2) = omega arith in
    rw inner (test-set_same k (b / 2) v)

test-set_other : (j k b : ℕ) (v : Bool) → j ≢ k → test_bit j (set_bit k v b) ≡ test_bit j b
unfolding test_bit set_bit
test-set_other zero zero b v h = absurd (h refl)
test-set_other zero (suc k) b v h =
    let low : (2 * set_bit k v (b / 2) + b % 2) % 2 ≡ b % 2 = omega arith in rw low refl
test-set_other (suc j) zero b true h =
    let inner : (2 * (b / 2) + 1) / 2 ≡ b / 2 = omega arith in rw inner refl
test-set_other (suc j) zero b false h =
    let inner : (2 * (b / 2) + 0) / 2 ≡ b / 2 = omega arith in rw inner refl
test-set_other (suc j) (suc k) b v h =
    let inner : (2 * set_bit k v (b / 2) + b % 2) / 2 ≡ set_bit k v (b / 2) = omega arith in
    rw inner (test-set_other j k (b / 2) v (λ e. h (ap suc e)))

at_byte_same :
    (i : ℕ) (f : ℕ → ℕ) (bs : Bytes) {b : ℕ}
    → get_elem? bs i ≡ some b
    → (get_elem? (at_byte i f bs) i ≡ some (f b)) × (i < length bs)
unfolding at_byte
at_byte_same i f [] h = cc
at_byte_same zero f (b ∷ bs) h = ground (arith, h)
at_byte_same (suc i) f (b ∷ bs) h = let (e, l) = at_byte_same i f bs h in (e, omega (arith, l))

at_byte_missing :
    (i : ℕ) (f : ℕ → ℕ) (bs : Bytes)
    → get_elem? bs i ≡ none
    → (get_elem? (at_byte i f bs) i ≡ none) × (length bs ≤ i)
unfolding at_byte
at_byte_missing i f [] h = (refl, omega arith)
at_byte_missing zero f (b ∷ bs) h = cc
at_byte_missing (suc i) f (b ∷ bs) h =
    let (e, l) = at_byte_missing i f bs h in (e, omega (arith, l))

at_byte_other :
    (i j : ℕ) (f : ℕ → ℕ) (bs : Bytes) → i ≢ j → get_elem? (at_byte i f bs) j ≡ get_elem? bs j
unfolding at_byte
at_byte_other i j f [] h = refl
at_byte_other zero zero f (b ∷ bs) h = absurd (h refl)
at_byte_other zero (suc j) f (b ∷ bs) h = refl
at_byte_other (suc i) zero f (b ∷ bs) h = refl
at_byte_other (suc i) (suc j) f (b ∷ bs) h = at_byte_other i j f bs (λ e. h (ap suc e))

read-write_same :
    (bs : Bytes) (i : ℕ) (v : Bool)
    → read_bit (write_bit bs i v) i ≡ (if ltb (i / 8) (length bs) then v else read_bit bs i)
unfolding read_bit write_bit
read-write_same bs i v = elim (Option-cases (get_elem? bs (i / 8))) [
  | inl h ↦
      let (e, l) = at_byte_missing (i / 8) (set_bit (i % 8) v) bs h in
      rw (read_bit, e, h, le→ltb-false _ _ l) refl
  | inr (b, h) ↦
      let (e, l) = at_byte_same (i / 8) (set_bit (i % 8) v) bs h in
      rw (read_bit, e, lt→ltb _ _ l) (test-set_same (i % 8) b v)
]

read-write_other :
    (bs : Bytes) (i j : ℕ) (v : Bool) → i ≢ j → read_bit (write_bit bs i v) j ≡ read_bit bs j
unfolding read_bit write_bit
read-write_other bs i j v h = elim (Bool-cases (i / 8 == j / 8)) [
  | inr n ↦
      let kept = at_byte_other (i / 8) (j / 8) (set_bit (i % 8) v) bs (ground (arith, n)) in
      rw (read_bit, kept) refl
  | inl t ↦
      let same : i / 8 ≡ j / 8 = ground (arith, t) in
      let f = set_bit (i % 8) v in
      elim (Option-cases (get_elem? bs (i / 8))) [
        | inl p ↦
            let p' = rw same at p in
            rw (read_bit, same, (at_byte_missing (j / 8) f bs p').0, p') refl
        | inr (b, p) ↦
            let p' = rw same at p in
            let differ : j % 8 ≢ i % 8 = omega (arith, same, h) in
            rw (read_bit, same, (at_byte_same (j / 8) f bs p').0, p')
              (test-set_other (j % 8) (i % 8) b v differ)
      ]
]

-- Writing a bit in range changes that bit and no other, and out of range it changes nothing.
pub read-write_bit :
    (bs : Bytes) (i j : ℕ) (v : Bool)
    → read_bit (write_bit bs i v) j
      ≡ (if i == j && ltb (i / 8) (length bs) then v else read_bit bs j)
read-write_bit bs i j v = elim (Bool-cases (i == j)) [
  | inl t ↦ (let e : i ≡ j = ground (arith, t) in rw (← e, ==_refl) (read-write_same bs i v))
  | inr n ↦ rw n (read-write_other bs i j v (ground (arith, n)))
]
