-- ===== src/Common/Int64.antt =====
-- Signed 64-bit integers, which wrap around, and their order.
use Prim.Native.Nat.{◌+◌, ◌-◌, ◌^◌}
use mathlib.Core.Path.{◌≡◌, refl}
use mathlib.Core.Bool.{Bool, true, false}
use native.Mathlib.Omega.{arith}
use go_ads.Common.Tests.{ltb, leb, if◌then◌else◌}
use go_ads.Common.Decimal.{ℤ, pos, negsuc}

unfoldable pub add64 : ℤ → ℤ → ℤ
add64 (pos a) (pos b) = if ltb (a + b) (2 ^ 63) then pos (a + b) else negsuc (2 ^ 64 - 1 - (a + b))
add64 (pos a) (negsuc b) = if ltb b a then pos (a - b - 1) else negsuc (b - a)
add64 (negsuc a) (pos b) = if ltb a b then pos (b - a - 1) else negsuc (a - b)
add64 (negsuc a) (negsuc b) =
    if ltb (a + b + 1) (2 ^ 63) then negsuc (a + b + 1) else pos (2 ^ 64 - (a + b + 2))

unfoldable pub lez : ℤ → ℤ → Bool
lez (pos a) (pos b) = leb a b
lez (pos a) (negsuc b) = false
lez (negsuc a) (pos b) = true
lez (negsuc a) (negsuc b) = leb b a

pub lez_refl : (a : ℤ) → lez a a ≡ true
unfolding lez
lez_refl (pos a) = ground arith
lez_refl (negsuc a) = ground arith

pub lez_trans : (a b c : ℤ) → lez a b ≡ true → lez b c ≡ true → lez a c ≡ true
unfolding lez
lez_trans (pos a) (pos b) (pos c) h k = ground arith
lez_trans (negsuc a) b (pos c) h k = refl
lez_trans (negsuc a) (negsuc b) (negsuc c) h k = ground arith
lez_trans (negsuc a) (pos b) (negsuc c) h k = cc
lez_trans (pos a) (negsuc b) c h k = cc
lez_trans (pos a) (pos b) (negsuc c) h k = cc

pub lez_total : (a b : ℤ) → lez a b ≡ false → lez b a ≡ true
unfolding lez
lez_total (pos a) (pos b) h = ground arith
lez_total (pos a) (negsuc b) h = refl
lez_total (negsuc a) (pos b) h = cc
lez_total (negsuc a) (negsuc b) h = ground arith
