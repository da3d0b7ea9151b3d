-- ===== src/Prelude/Double.antt =====
-- The source's `number`, where it stands for a price, a premium or an amount of dollars: a type with
-- the operations that the code calls, whose rounding is not fixed here. `IsOrdered` says that the
-- comparisons of two values agree with one another, which IEEE 754 promises for all values but NaN.
use Prim.Native.Nat.{ℕ}
use mathlib.Core.Path.{◌≡◌}
use mathlib.Core.Logic.{◌⊎◌}
use mathlib.Core.Option.{Option, none, some}
use mathlib.Core.Bool.{Bool, true, not}
use nest_js_mega_backend.Prelude.Tests.{if◌then◌else◌}

pub record Double (N : Type 0) : Type 0 where
  -- `dec m k` is the literal m / 10 ^ k
  pub dec : ℕ → ℕ → N
  pub add : N → N → N
  pub sub : N → N → N
  pub mul : N → N → N
  pub div : N → N → N
  -- `Math.round`
  pub round : N → N
  -- `Math.floor` of a value that is not negative
  pub floor : N → ℕ
  pub le : N → N → Bool
  pub is_finite : N → Bool

module _ {N : Type 0} ⦃d : Double N⦄ where
  infix 50 ◌≼◌
  abbrev pub ◌≼◌ : N → N → Type 0
  a ≼ b = d.le a b ≡ true

  abbrev pub lt : N → N → Bool
  lt a b = not (d.le b a)

  -- `Math.max` and `Math.min` of two values
  abbrev pub max_of : N → N → N
  max_of a b = if d.le a b then b else a

  abbrev pub min_of : N → N → N
  min_of a b = if d.le a b then a else b

  abbrev pub lit : ℕ → N
  lit n = d.dec n 0

  -- The first may be missing, and is then under everything.
  abbrev pub IsUnder : Option N → Option N → Type 0
  IsUnder none b = Unit
  IsUnder (some a) none = ⊥
  IsUnder (some a) (some b) = a ≼ b

-- The order of the values: total, and `a < b` is the negation of `b <= a`.
pub record IsOrdered (N : Type 0) ⦃d : Double N⦄ : Type 0 where
  pub le_refl : (a : N) → a ≼ a
  pub le_trans : (a b c : N) → a ≼ b → b ≼ c → a ≼ c
  pub le_total : (a b : N) → (a ≼ b) ⊎ (b ≼ a)
