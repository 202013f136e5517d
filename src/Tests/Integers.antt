-- ===== src/Tests/Integers.antt =====
-- The integers in place of Go's `float64`, for runs at concrete inputs.
use home_metrics.Base.{◌+◌, ◌/◌, true, arith}
use home_metrics.Base.Int.{
  ℤ, pos, negsuc, sub_ℕ, pos_part, neg_part, leb_ℤ, ltb_ℤ, eqb_ℤ, ◌+ℤ◌, ◌-ℤ◌, ◌*ℤ◌,
}
use home_metrics.Base.Float.{Float64, IsOrdered}

abbrev quotient : ℤ → ℤ → ℤ
quotient (pos a) (pos b) = pos (a / b)
quotient (negsuc a) (pos b) = sub_ℕ 0 ((a + 1) / b)
quotient a b = a

abbrev pub integers : Float64
integers = record {
  F = ℤ;
  le = leb_ℤ;
  lt = ltb_ℤ;
  eq = eqb_ℤ;
  is_finite = λ z. true;
  of_int = λ z. z;
  add = ◌+ℤ◌;
  sub = ◌-ℤ◌;
  mul = ◌*ℤ◌;
  div = quotient;
  abs = λ z. pos (pos_part z + neg_part z);
  round_int = λ z. z;
  from_bits32 = pos;
}

pub integers-IsOrdered : IsOrdered integers
integers-IsOrdered = record {
  le_trans = λ a b c. λ p q. ground arith;
  lt-not_le = λ a b p. ground arith;
}
