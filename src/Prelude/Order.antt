-- ===== src/Prelude/Order.antt =====
-- `Math.max` and `Math.min` over an ordered `Double`, and a stop that may be missing.
use mathlib.Core.Option.{Option, none, some}
use native.Mathlib.Omega.{arith}
use nest_js_mega_backend.Prelude.Double.{Double, IsOrdered, ◌≼◌, IsUnder, max_of, min_of}

module _ {N : Type 0} ⦃d : Double N⦄ (laws : IsOrdered N) where
  open laws use {le_refl, le_trans, le_total}

  pub le-max_left : (a b : N) → a ≼ max_of a b
  le-max_left a b = ground (arith, le_refl a)

  pub le-max_right : (a b : N) → b ≼ max_of a b
  le-max_right a b = ground (arith, le_refl b, le_total a b)

  pub max-le : (a b c : N) → a ≼ c → b ≼ c → max_of a b ≼ c
  max-le a b c h k = ground arith

  pub min-le_left : (a b : N) → min_of a b ≼ a
  min-le_left a b = ground (arith, le_refl a, le_total a b)

  pub min-le_right : (a b : N) → min_of a b ≼ b
  min-le_right a b = ground (arith, le_refl b)

  pub le-min : (a b c : N) → c ≼ a → c ≼ b → c ≼ min_of a b
  le-min a b c h k = ground arith

  pub min_mono : (a b c : N) → a ≼ b → min_of a c ≼ min_of b c
  min_mono a b c h = le-min b c (min_of a c) (le_trans _ a b (min-le_left a c) h) (min-le_right a c)

  pub IsUnder-refl : (a : Option N) → IsUnder a a
  IsUnder-refl none = tt
  IsUnder-refl (some a) = le_refl a
