-- ===== src/Prelude/Doubles.antt =====
-- The floating-point numbers of a component that only stores, adds and compares them.
use turmite_linux.Prelude.Tests.{ltb, leb}
use Prim.Native.Nat.{ℕ, ◌+◌, ◌-◌, ◌*◌, ◌/◌, ◌^◌}
use mathlib.Core.Bool.{Bool}
use turmite_linux.Prelude.Int.{ℤ, pos_part}

-- A `double` and its operations, rounded as the machine rounds: `below x y` is `x < y`, `at_most x y` is
-- `x <= y`, and
-- `fixed n` is n / 65536; `decimal n k` is n / 10 ^ k.
pub record Doubles : Type 1 where
  pub Double : Type 0
  pub of_nat : ℕ → Double
  pub of_int : ℤ → Double
  pub fixed : ℕ → Double
  pub decimal : ℕ → ℕ → Double
  pub plus : Double → Double → Double
  pub minus : Double → Double → Double
  pub times : Double → Double → Double
  pub below : Double → Double → Bool
  pub at_most : Double → Double → Bool

-- An instance of it, for examples: natural numbers of units of 1 / 65536.
abbrev pub coarse : Doubles
coarse = record {
  Double = ℕ;
  of_nat = λ n. n * 65536;
  of_int = λ z. pos_part z * 65536;
  fixed = λ n. n;
  decimal = λ n k. n * 65536 / 10 ^ k;
  plus = λ a b. a + b;
  minus = λ a b. a - b;
  times = λ a b. a * b / 65536;
  below = ltb;
  at_most = leb;
}
