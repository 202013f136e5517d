-- ===== src/Base/Float.antt =====
-- Go's `float64`, as an interface: the type and the operations that the program uses. The laws that
-- a theorem needs are a record of their own.
use mathlib.Core.Path.{◌≡◌}
use mathlib.Core.Bool.{Bool, true, false}
use Prim.Native.Nat.{ℕ}
use home_metrics.Base.Int.{ℤ}

-- `le` and `lt` are Go's `<=` and `<`; `of_int` is the conversion from an integer type;
-- `from_bits32` is `float64(math.Float32frombits(b))`; `round_int` is `math.Round`.
pub record Float64 : Type 1 where
  pub F : Type 0
  pub le : F → F → Bool
  pub lt : F → F → Bool
  pub eq : F → F → Bool
  pub is_finite : F → Bool
  pub of_int : ℤ → F
  pub add : F → F → F
  pub sub : F → F → F
  pub mul : F → F → F
  pub div : F → F → F
  pub abs : F → F
  pub round_int : F → F
  pub from_bits32 : ℕ → F

-- What IEEE 754 promises of the comparisons; each also holds where an operand is a NaN.
pub record IsOrdered (fl : Float64) : Type 0 where
  pub le_trans : (a b c : fl.F) → fl.le a b ≡ true → fl.le b c ≡ true → fl.le a c ≡ true
  pub lt-not_le : (a b : fl.F) → fl.lt a b ≡ true → fl.le b a ≡ false
