-- ===== src/Common/Results.antt =====
-- Go's `error` as the code of this library tells errors apart, and the `(value, error)` result.
-- `errors.As(err, &ReturnCode)` finds a device's verdict and never a router's rejection, since
-- `AMSError` has no `Unwrap` (transport.go).
use Prim.Native.Nat.{ℕ}
use mathlib.Core.Path.{◌≡◌, refl}
use mathlib.Core.Logic.{◌⊎◌, inl, inr}

pub data Fault : Type 0 where
  device : ℕ → Fault
  router : ℕ → Fault
  transport : Fault
  malformed : Fault

pub data Result {ℓ} (A : Type ℓ) : Type ℓ where
  err : Fault → Result A
  ok : A → Result A

infixl 5 ◌>>=◌
abbrev pub ◌>>=◌ {ℓ κ} : {A : Type ℓ} {B : Type κ} → Result A → (A → Result B) → Result B
r >>= f = elim r [ err e ↦ err e | ok a ↦ f a ]

-- To split on a result and keep the equation.
pub Result-cases {ℓ} :
    {A : Type ℓ} (r : Result A) → ((e : Fault) × (r ≡ err e)) ⊎ ((a : A) × (r ≡ ok a))
Result-cases (ok a) = inr (a, refl)
Result-cases (err e) = inl (e, refl)

-- A bind that succeeds has passed a value on.
pub passed_on {ℓ κ} :
    {A : Type ℓ} {B : Type κ} (r : Result A) (f : A → Result B) {b : B}
    → (r >>= f) ≡ ok b
    → (a : A) × (r ≡ ok a) × (f a ≡ ok b)
passed_on (err e) f h = cc
passed_on (ok a) f h = (a, refl, h)

-- What holds of both cases holds of the split.
pub Result-both {ℓ κ μ} :
    {A : Type ℓ} {B : Type κ} (P : B → Type μ) (r : Result A) {f : Fault → B} {g : A → B}
    → ((e : Fault) → P (f e))
    → ((a : A) → P (g a))
    → P (elim r [ err e ↦ f e | ok a ↦ g a ])
Result-both P (err e) p q = p e
Result-both P (ok a) p q = q a
