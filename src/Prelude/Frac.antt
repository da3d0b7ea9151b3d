-- ===== src/Prelude/Frac.antt =====
-- Exact fractions as values of `Double`: (up - down) / (suc den). They show that the laws which the
-- development asks of numbers can hold, and they run in its tests.
use native.Mathlib.Nat.{le_of_mul-le-mul_right, mul-le-mul_right}
use Prim.Native.Nat.{ℕ, suc, ◌+◌, ◌-◌, ◌*◌, ◌/◌, ◌^◌, ◌≤◌}
use mathlib.Core.Logic.{◌⊎◌}
use mathlib.Core.Bool.{Bool, true}
use native.Mathlib.Omega.{arith}
use nest_js_mega_backend.Prelude.Tests.{leb, ltb, leb→le, le→leb, if◌then◌else◌}
use nest_js_mega_backend.Prelude.Double.{Double, IsOrdered, ◌≼◌}

pub record Frac : Type 0 where
  pub up : ℕ
  pub down : ℕ
  pub den : ℕ

abbrev frac_add : Frac → Frac → Frac
frac_add a b = record {
  up = a.up * suc b.den + b.up * suc a.den;
  down = a.down * suc b.den + b.down * suc a.den;
  den = suc a.den * suc b.den - 1;
}

abbrev frac_neg : Frac → Frac
frac_neg a = record { up = a.down; down = a.up; den = a.den }

abbrev frac_mul : Frac → Frac → Frac
frac_mul a b = record {
  up = a.up * b.up + a.down * b.down;
  down = a.up * b.down + a.down * b.up;
  den = suc a.den * suc b.den - 1;
}

-- a division by zero gives zero
abbrev frac_inv : Frac → Frac
frac_inv a =
    if ltb a.down a.up
    then record { up = suc a.den; down = 0; den = a.up - a.down - 1 }
    else if ltb a.up a.down
    then record { up = 0; down = suc a.den; den = a.down - a.up - 1 }
    else record { up = 0; down = 0; den = 0 }

-- half way goes up, as `Math.round` does
abbrev frac_round : Frac → Frac
frac_round a =
    if leb a.down a.up
    then record { up = (2 * (a.up - a.down) + suc a.den) / (2 * suc a.den); down = 0; den = 0 }
    else record { up = 0; down = (2 * (a.down - a.up) + suc a.den - 1) / (2 * suc a.den); den = 0 }

abbrev frac_le : Frac → Frac → Bool
frac_le a b = leb (a.up * suc b.den + b.down * suc a.den) (b.up * suc a.den + a.down * suc b.den)

instance abbrev pub frac_double : Double Frac
frac_double = record {
  dec = λ m k. record { up = m; down = 0; den = 10 ^ k - 1 };
  add = frac_add;
  sub = λ a b. frac_add a (frac_neg b);
  mul = frac_mul;
  div = λ a b. frac_mul a (frac_inv b);
  round = frac_round;
  floor = λ a. (a.up - a.down) / suc a.den;
  le = frac_le;
  is_finite = λ a. true;
}

-- The order on two sums that a positive factor scales.
cross_trans :
    (a a' b b' c c' p q r : ℕ)
    → a * suc q + b' * suc p ≤ b * suc p + a' * suc q
    → b * suc r + c' * suc q ≤ c * suc q + b' * suc r
    → a * suc r + c' * suc p ≤ c * suc p + a' * suc r
cross_trans a a' b b' c c' p q r h k =
    le_of_mul-le-mul_right {k = suc q}
      (omega (arith, mul-le-mul_right (suc r) h, mul-le-mul_right (suc p) k)) (omega arith)

frac_le_trans : (a b c : Frac) → a ≼ b → b ≼ c → a ≼ c
frac_le_trans a b c h k = le→leb _ _ (
    cross_trans a.up a.down b.up b.down c.up c.down a.den b.den c.den (leb→le _ _ h) (leb→le _ _ k))

frac_le_refl : (a : Frac) → a ≼ a
frac_le_refl a = ground arith

frac_le_total : (a b : Frac) → (a ≼ b) ⊎ (b ≼ a)
frac_le_total a b = ground arith

pub Frac-IsOrdered : IsOrdered Frac
Frac-IsOrdered = record {
  le_refl = frac_le_refl;
  le_trans = frac_le_trans;
  le_total = frac_le_total;
}
