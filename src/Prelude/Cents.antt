-- ===== src/Prelude/Cents.antt =====
-- Whole cents as values of `Double`: what falls under a cent is rounded away, and what falls under
-- zero is zero. They show that rounding may keep the order.
use Prim.Native.Nat.{ℕ, ◌+◌, ◌-◌, ◌*◌, ◌/◌, ◌^◌}
use mathlib.Core.Logic.{◌⊎◌}
use mathlib.Core.Bool.{true}
use native.Mathlib.Omega.{arith}
use nest_js_mega_backend.Prelude.Tests.{leb}
use nest_js_mega_backend.Prelude.Double.{Double, IsOrdered, ◌≼◌}

instance abbrev pub cents_double : Double ℕ
cents_double = record {
  dec = λ m k. m * 100 / 10 ^ k;
  add = λ a b. a + b;
  sub = λ a b. a - b;
  mul = λ a b. a * b / 100;
  div = λ a b. a * 100 / b;
  round = λ a. (a + 50) / 100 * 100;
  floor = λ a. a / 100;
  le = leb;
  is_finite = λ a. true;
}

cents_le_refl : (a : ℕ) → a ≼ a
cents_le_refl a = ground arith

cents_le_trans : (a b c : ℕ) → a ≼ b → b ≼ c → a ≼ c
cents_le_trans a b c h k = ground arith

cents_le_total : (a b : ℕ) → (a ≼ b) ⊎ (b ≼ a)
cents_le_total a b = ground arith

pub Cents-IsOrdered : IsOrdered ℕ
Cents-IsOrdered = record {
  le_refl = cents_le_refl;
  le_trans = cents_le_trans;
  le_total = cents_le_total;
}
