-- ===== src/Common/Decimal.antt =====
-- `strconv` in base 10: FormatUint, FormatInt, ParseUint and ParseInt. A text is its bytes.
use Prim.Native.Nat.{ℕ, zero, suc, ◌+◌, ◌-◌, ◌*◌, ◌/◌, ◌%◌, ◌≤◌, ◌<◌}
use mathlib.Core.Path.{◌≡◌, refl, ◌∙◌}
use mathlib.Core.Bool.{Bool, true, false, ◌||◌}
use mathlib.Core.Logic.{inl, inr}
use mathlib.Core.List.{[], ◌∷◌}
use native.Mathlib.Omega.{arith}
use go_ads.Common.Tests.{Bool-cases, ltb, leb, ◌==◌, if◌then◌else◌}
use go_ads.Common.Lists.{Bytes}
use go_ads.Common.Results.{Result, ok, err, malformed, ◌>>=◌}

-- `-(n + 1)` is `negsuc n`.
pub data ℤ : Type 0 where
  pos : ℕ → ℤ
  negsuc : ℕ → ℤ

-- The digits of `n` before `out`; `n` is at most the first argument, which bounds their number.
unfoldable pub digits : ℕ → ℕ → Bytes → Bytes
digits zero n out = (b'0' + n % 10) ∷ out
digits (suc f) n out =
    let more = digits f (n / 10) ((b'0' + n % 10) ∷ out) in
    if ltb n 10 then (b'0' + n) ∷ out else more

unfoldable pub format_uint : ℕ → Bytes
unfolding digits
format_uint n = digits n n []

unfoldable pub format_int : ℤ → Bytes
unfolding format_uint
format_int (pos n) = format_uint n
format_int (negsuc n) = b'-' ∷ format_uint (n + 1)

-- `max` is the largest number of the wanted width: a number above it is a range error.
unfoldable pub scan : ℕ → Bytes → ℕ → Result ℕ
scan max [] n = ok n
scan max (c ∷ s) n =
    let n' = n * 10 + (c - b'0') in
    let more = scan max s n' in
    if ltb c b'0' || ltb b'9' c then err malformed else if ltb max n' then err malformed else more

unfoldable pub parse_uint : ℕ → Bytes → Result ℕ
unfolding scan
parse_uint max [] = err malformed
parse_uint max (c ∷ s) = scan max (c ∷ s) 0

-- The magnitude with its sign, against `half`, which is 2 ^ (width - 1).
unfoldable pub with_sign : ℕ → Bool → ℕ → Result ℤ
with_sign half false n = if leb half n then err malformed else ok (pos n)
with_sign half true n =
    if ltb half n then err malformed else ok (if n == 0 then pos 0 else negsuc (n - 1))

unfoldable pub parse_int : ℕ → Bytes → Result ℤ
unfolding parse_uint with_sign
parse_int half [] = err malformed
parse_int half (c ∷ s) =
    if c == b'-'
    then (do n ← parse_uint (2 * half - 1) s; with_sign half true n)
    else if c == b'+'
    then (do n ← parse_uint (2 * half - 1) s; with_sign half false n)
    else (do n ← parse_uint (2 * half - 1) (c ∷ s); with_sign half false n)

-- Reading the digits of `n` is reading on from `n`.
scan-digits :
    (max f n : ℕ) (out : Bytes) → n ≤ f → n ≤ max → scan max (digits f n out) 0 ≡ scan max out n
unfolding scan digits
scan-digits max zero n out h k = ground arith
scan-digits max (suc f) n out h k =
    ground (arith, scan-digits max f (n / 10) ((b'0' + n % 10) ∷ out))

-- The first byte that is written is a digit.
pub digits-cons :
    (f n : ℕ) (out : Bytes)
    → (c : ℕ) × (s : Bytes) × (digits f n out ≡ c ∷ s) × (b'0' ≤ c) × (c ≤ b'9')
unfolding digits
digits-cons zero n out = (b'0' + n % 10, out, refl, omega arith, omega arith)
digits-cons (suc f) n out = elim (Bool-cases (ltb n 10)) [
  | inl p ↦ rw p (b'0' + n, out, refl, omega arith, ground arith)
  | inr p ↦ rw p (digits-cons f (n / 10) ((b'0' + n % 10) ∷ out))
]

parse_uint-cons :
    (max : ℕ) (s : Bytes) {c : ℕ} {r : Bytes} → s ≡ c ∷ r → parse_uint max s ≡ scan max s 0
unfolding parse_uint
parse_uint-cons max [] e = cc
parse_uint-cons max (c ∷ s) e = refl

-- A number that fits is read back from its decimal print.
pub parse-format_uint : (max n : ℕ) → n ≤ max → parse_uint max (format_uint n) ≡ ok n
unfolding format_uint
parse-format_uint max n h =
    let (c, s, e, lo, hi) = digits-cons n n [] in
    parse_uint-cons max (digits n n []) e
    ∙ scan-digits max n n [] (omega arith) h
    ∙ unfold scan in refl

scan-le-max : (max : ℕ) (s : Bytes) (n : ℕ) {r : ℕ} → n ≤ max → scan max s n ≡ ok r → r ≤ max
unfolding scan
scan-le-max max [] n h e = ground arith
scan-le-max max (c ∷ s) n {r} h e = ground (arith, scan-le-max max s (n * 10 + (c - b'0')) {r = r})

-- What is read is within the range of the wanted width.
pub parse_uint-le-max : (max : ℕ) (s : Bytes) {r : ℕ} → parse_uint max s ≡ ok r → r ≤ max
unfolding parse_uint
parse_uint-le-max max [] e = cc
parse_uint-le-max max (c ∷ s) e = scan-le-max max (c ∷ s) 0 (omega arith) e

-- The integers of a width, `half` being 2 ^ (width - 1).
abbrev pub Fits : ℕ → ℤ → Type 0
Fits half (pos n) = n < half
Fits half (negsuc n) = n < half

parse_int_digit :
    (half c : ℕ) (s r : Bytes)
    → r ≡ c ∷ s
    → b'0' ≤ c
    → parse_int half r ≡ (do n ← parse_uint (2 * half - 1) r; with_sign half false n)
unfolding parse_int
parse_int_digit half c s [] e h = cc
parse_int_digit half c s (d ∷ r) e h = ground arith

-- An integer that fits is read back from its decimal print.
pub parse-format_int : (half : ℕ) (z : ℤ) → Fits half z → parse_int half (format_int z) ≡ ok z
parse-format_int half (pos n) h =
    unfold format_int with_sign in
    let (c, s, e, lo, hi) = digits-cons n n [] in
    parse_int_digit half c s (digits n n []) e lo
    ∙ rw (parse-format_uint (2 * half - 1) n (omega arith)) (ground arith)
parse-format_int half (negsuc n) h =
    unfold parse_int format_int in
    rw (parse-format_uint (2 * half - 1) (n + 1) (omega arith)) (ground arith)
