-- ===== src/Common/Floats.antt =====
-- `double`. There are no floating-point numbers in the logic: their type, the operations that the
-- program uses and `std::stod` are parameters, and so is what a proof needs of them.
use Prim.Native.Nat.{ℕ, ◌+◌, ◌*◌, ◌^◌, ◌<◌, ◌≤◌}
use mathlib.Core.Path.{◌≡◌}
use mathlib.Core.Bool.{Bool, true, false}
use mathlib.Core.Option.{Option, some}
use inertia_trader.Common.Tests.{ltb}
use inertia_trader.Common.Texts.{Text}

pub record Floats (N : Type 0) : Type 0 where
  -- `a < b`, `a >= b` and `a * b`
  pub lt : N → N → Bool
  pub ge : N → N → Bool
  pub mul : N → N → N
  -- `std::stod`, with `none` where it throws, and `std::to_string`
  pub stod : Text → Option N
  pub to_string : N → Text
  -- the literal of this many tenths, and the literals 1000 and 60
  pub literal : ℕ → N
  pub lot : N
  pub sixty : N

-- What IEEE 754 says of `<`, NaN included.
pub record FloatLaws {N : Type 0} (F : Floats N) : Type 0 where
  pub irrefl : (a : N) → F.lt a a ≡ false
  pub trans : (a b c : N) → F.lt a b ≡ true → F.lt b c ≡ true → F.lt a c ≡ true

-- What IEEE 754 says of `<` and of the product with a literal, where `value` gives a finite number that
-- is not negative in units of the least positive `double`, and NaN, the infinities and the negative
-- numbers have none. The literal and the product are rounded: they are off by less than one part in
-- 2 ^ 50 together, and by one unit at most where the product is subnormal.
pub record DoubleLaws {N : Type 0} (F : Floats N) (value : N → Option ℕ) (IsNan : N → Type 0)
    : Type 0 where
  pub lt_value : (a b : N) (x y : ℕ) → value a ≡ some x → value b ≡ some y → F.lt a b ≡ ltb x y
  pub lt_nan : (a b : N) → IsNan b → (F.lt a b ≡ false) × (F.lt b a ≡ false)
  pub product_le :
      (a : N) (n x y : ℕ)
      → n < 100
      → value a ≡ some x
      → value (F.mul a (F.literal n)) ≡ some y
      → 10 * 2 ^ 50 * y ≤ (2 ^ 50 + 1) * (n * x) + 10 * 2 ^ 50
  pub product_ge :
      (a : N) (n x y : ℕ)
      → n < 100
      → value a ≡ some x
      → value (F.mul a (F.literal n)) ≡ some y
      → 2 ^ 50 * (n * x) ≤ 10 * 2 ^ 50 * y + n * x + 10 * 2 ^ 50
