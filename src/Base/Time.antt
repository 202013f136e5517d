-- ===== src/Base/Time.antt =====
-- Go's `time.Time` and `time.Duration`. An instant is its nanoseconds since the zero `Time`
-- (1 January of year 1, UTC); earlier instants are not represented. A duration is an `int64`.
use Prim.Native.Nat.{ℕ, ◌-◌, ◌%◌, ◌^◌}
use mathlib.Core.Bool.{Bool}
use mathlib.Core.Path.{◌≡◌}
use native.Mathlib.Omega.{arith}
use home_metrics.Base.Tests.{ltb, leb, ◌==◌, if◌then◌else◌}
use home_metrics.Base.Int.{ℤ, pos, negsuc, sub_ℕ}

abbrev pub Time : Type 0
Time = ℕ

abbrev pub Duration : Type 0
Duration = ℤ

abbrev pub int64_max : ℕ
int64_max = 2 ^ 63 - 1

-- A duration outside `int64` is replaced by the nearest one inside.
abbrev pub saturate : ℤ → ℤ
saturate (pos n) = if leb n int64_max then pos n else pos int64_max
saturate (negsuc n) = if leb n int64_max then negsuc n else negsuc int64_max

-- `t.Sub(u)`.
unfoldable pub elapsed : Time → Time → Duration
elapsed t u = saturate (sub_ℕ t u)

-- `t.After(u)` and `t.Before(u)`.
abbrev pub is_after : Time → Time → Bool
is_after t u = ltb u t

abbrev pub is_before : Time → Time → Bool
is_before t u = ltb t u

abbrev pub is_zero : Time → Bool
is_zero t = t == 0

abbrev pub second : ℕ
second = 1_000_000_000

abbrev pub minute : ℕ
minute = 60_000_000_000

-- `t.Truncate(time.Minute)`.
unfoldable pub truncate_minute : Time → Time
truncate_minute t = t - t % minute

pub truncate_minute_idem : (t : Time) → truncate_minute (truncate_minute t) ≡ truncate_minute t
unfolding truncate_minute
truncate_minute_idem t = omega arith

pub elapsed_self : (t : Time) → elapsed t t ≡ pos 0
unfolding elapsed
elapsed_self t = ground arith
