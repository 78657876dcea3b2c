-- ===== src/Codec/RoundTrip.antt =====
-- The scalars of symbol_codec.go, read and written one after the other.
use go_ads.Common.{
  ℕ, zero, suc, ◌-◌, ◌*◌, ◌^◌, ◌<◌, ◌≤◌, ◌≡◌, ◌≢◌, refl, ap, [], ◌∷◌, ◌++◌, append-nil, Bytes,
  length, take, replicate, All, arith, ok, ◌>>=◌, ltb, IsByte, IsU16, List, ◌/◌, ==_refl,
  le→ltb-false, Bool-cases, inl, inr,
}
use go_ads.Common.Words.{put_le, get_le_sound, get_le_ok}
use native.Mathlib.Omega.{pow_step}
use go_ads.Common.Decimal.{parse-format_uint, parse-format_int, Fits}
use go_ads.Codec.Scalar.{
  number, print_unsigned, print_signed, write_unsigned, write_signed, to_signed, to_unsigned, half,
  before_nul, write_string, units_before_nul, put_units, cut_units, write_wstring,
}

no_bytes : (bs : Bytes) → length bs ≡ 0 → bs ≡ []
no_bytes [] h = refl
no_bytes (b ∷ bs) h = absurd (omega arith)

-- The number in bytes of the right length, and that it gives the bytes back.
number_lem :
    (w : ℕ) (raw : Bytes)
    → All IsByte raw
    → length raw ≡ w
    → (n : ℕ) × (number w raw ≡ ok n) × (n < 256 ^ w) × (put_le w n ≡ raw)
unfolding number
number_lem w raw b l =
    let (n, rest, e, m) = get_le_ok w raw (omega (arith, l)) in
    let (lt, back, bytes) = get_le_sound w raw {v = n} {rest = rest} b e in
    let none_left : rest ≡ [] = no_bytes rest (omega (arith, l, m)) in
    let joined = rw (none_left, append-nil (put_le w n)) at back in
    (n, rw (l, ==_refl w, e) refl, lt, joined)

bits : (w : ℕ) → 2 ^ (8 * w) ≡ 256 ^ w
bits zero = refl
bits (suc w) =
    let n = 8 * w in
    let e : 8 * suc w ≡ suc (suc (suc (suc (suc (suc (suc (suc n))))))) = omega arith in
    rw e (simp (pow_step 2) (omega (arith, bits w, pow_step 256 w)))

halves : (w : ℕ) → 2 * half (suc w) ≡ 256 ^ suc w
halves w =
    let e : 8 * suc w ≡ suc (8 * suc w - 1) = omega arith in
    omega (arith, pow_step 2 (8 * suc w - 1), ap (λ n. 2 ^ n) e, bits (suc w))

signed_lem : (h n : ℕ) → n < 2 * h → Fits h (to_signed h n) × (to_unsigned h (to_signed h n) ≡ n)
unfolding to_unsigned
signed_lem h n l = elim (Bool-cases (ltb n h)) [
  | inl t ↦ rw t (ground (arith, t))
  | inr f ↦ rw f (ground (arith, f))
]

-- An unsigned value that was read can be written back: its text gives the very bytes.
pub write-print_unsigned :
    (w : ℕ) (raw : Bytes)
    → All IsByte raw
    → length raw ≡ w
    → (print_unsigned w raw >>= write_unsigned w) ≡ ok raw
unfolding print_unsigned write_unsigned
write-print_unsigned w raw b l =
    let (n, e, lt, back) = number_lem w raw b l in
    let max = bits w in
    rw (e, parse-format_uint (2 ^ (8 * w) - 1) n (omega (arith, max, lt)), back) refl

-- So can a signed value, negative ones included.
pub write-print_signed :
    (w : ℕ) (raw : Bytes)
    → All IsByte raw
    → length raw ≡ suc w
    → (print_signed (suc w) raw >>= write_signed (suc w)) ≡ ok raw
unfolding print_signed write_signed to_unsigned
write-print_signed w raw b l =
    let (n, e, lt, back) = number_lem (suc w) raw b l in
    let (fits, same) = signed_lem (half (suc w)) n (omega (arith, halves w, lt)) in
    rw (e, parse-format_int (half (suc w)) (to_signed (half (suc w)) n) fits, same, back) refl

before_nul-append :
    (text : Bytes) (n : ℕ) → All (λ c. c ≢ 0) text → before_nul (text ++ replicate n 0) ≡ text
unfolding before_nul
before_nul-append [] zero h = refl
before_nul-append [] (suc n) h = refl
before_nul-append (c ∷ text) n (h, hs) =
    let rec = before_nul-append text n hs in ground (arith, rec, h)

-- Of a text, for a variable of one byte or more, as much as leaves room for a NUL is written, and
-- read back as it is if it has no NUL itself.
pub before_nul-write_string :
    (size : ℕ) (text : Bytes)
    → 1 ≤ size
    → All (λ c. c ≢ 0) (take (size - 1) text)
    → (write_string size text >>= λ raw. ok (before_nul raw)) ≡ ok (take (size - 1) text)
unfolding write_string
before_nul-write_string size text h n =
    rw (le→ltb-false size 1 h, before_nul-append (take (size - 1) text) _ n) refl

-- A 16-bit unit that is not NUL.
abbrev pub IsUnit : ℕ → Type 0
IsUnit u = (1 ≤ u) × IsU16 u

units_before_nul-zeros : (n : ℕ) → units_before_nul (replicate n 0) ≡ []
unfolding units_before_nul
units_before_nul-zeros zero = refl
units_before_nul-zeros (suc zero) = refl
units_before_nul-zeros (suc (suc n)) = refl

units_before_nul-put_units :
    (us : List ℕ) (n : ℕ) → All IsUnit us → units_before_nul (put_units us ++ replicate n 0) ≡ us
unfolding units_before_nul put_units put_le
units_before_nul-put_units [] n h = units_before_nul-zeros n
units_before_nul-put_units (u ∷ us) n ((p, q), h) =
    let rec = units_before_nul-put_units us n h in ground (arith, rec, p, q)

-- Of UTF-16 units without NUL, for a variable of two bytes or more, those that `cut_units` leaves
-- are written, and they are read back as they are.
pub units_before_nul-write_wstring :
    (size : ℕ) (units : List ℕ)
    → 2 ≤ size
    → All IsUnit (cut_units ((size - 2) / 2) units)
    → (write_wstring size units >>= λ raw. ok (units_before_nul raw))
      ≡ ok (cut_units ((size - 2) / 2) units)
unfolding write_wstring
units_before_nul-write_wstring size units h n =
    rw (le→ltb-false size 2 h, units_before_nul-put_units (cut_units ((size - 2) / 2) units) _ n)
      refl
