-- ===== src/Base/Bits.antt =====
-- The bit operations on machine words, as arithmetic where their operands do not overlap.
use Prim.Native.Nat.{
  ℕ, zero, suc, ◌+◌, ◌*◌, ◌/◌, ◌%◌, ◌^◌, ◌≤◌, ◌<◌, max, bit_or, digits, bit_or-bitwise,
}
use mathlib.Core.Path.{◌≡◌, refl, ap}
use native.Mathlib.Nat.{pow-suc}
use native.Mathlib.Omega.{arith}

-- The law for the lowest digit of `bit_or`.
abbrev or_digits : ℕ → ℕ → ℕ → ℕ
or_digits n a b = digits (λ b. b) max n a b

or_digits_fuel : (n m a b : ℕ) → a ≤ n → a ≤ m → or_digits n a b ≡ or_digits m a b
or_digits_fuel zero zero a b p q = refl
or_digits_fuel zero (suc m) zero b p q = refl
or_digits_fuel zero (suc m) (suc a) b p q = absurd (omega arith)
or_digits_fuel (suc n) zero zero b p q = refl
or_digits_fuel (suc n) zero (suc a) b p q = absurd (omega arith)
or_digits_fuel (suc n) (suc m) zero b p q = refl
or_digits_fuel (suc n) (suc m) (suc a) b p q =
    omega (arith, or_digits_fuel n m (suc a / 2) (b / 2) (omega arith) (omega arith))

zero-bit_or : (b : ℕ) → bit_or 0 b ≡ b
zero-bit_or b = bit_or-bitwise 0 b

pub bit_or_step : (a b : ℕ) → bit_or a b ≡ bit_or (a / 2) (b / 2) * 2 + max (a % 2) (b % 2)
bit_or_step zero b = omega (arith, zero-bit_or b, zero-bit_or (b / 2))
bit_or_step (suc a) b = omega (
  arith,
  bit_or-bitwise (suc a) b,
  bit_or-bitwise (suc a / 2) (b / 2),
  or_digits_fuel a (suc a / 2) (suc a / 2) (b / 2) (omega arith) (omega arith),
)

bit_or-zero_fuel : (n a : ℕ) → a ≤ n → bit_or a 0 ≡ a
bit_or-zero_fuel n zero h = refl
bit_or-zero_fuel zero (suc a) h = absurd (omega arith)
bit_or-zero_fuel (suc n) (suc a) h =
    omega (arith, bit_or_step (suc a) 0, bit_or-zero_fuel n (suc a / 2) (omega arith))

pub bit_or-zero : (a : ℕ) → bit_or a 0 ≡ a
bit_or-zero a = bit_or-zero_fuel a a (omega arith)

double_pow : (s : ℕ) → 2 ^ suc s ≡ 2 * 2 ^ s
double_pow s = omega (arith, pow-suc 2 s)

shifted : (c s : ℕ) → c * 2 ^ suc s ≡ 2 * (c * 2 ^ s)
shifted c s = omega (arith, ap (λ (t : ℕ). c * t) (double_pow s))

-- A number below 2 ^ s joined with one shifted left by s, in either order.
pub bit_or-disjoint :
    (s a c : ℕ)
    → a < 2 ^ s
    → (bit_or a (c * 2 ^ s) ≡ a + c * 2 ^ s) × (bit_or (c * 2 ^ s) a ≡ a + c * 2 ^ s)
bit_or-disjoint zero zero c h =
    rw (zero-bit_or (c * 1), bit_or-zero (c * 1)) (omega arith, omega arith)
bit_or-disjoint zero (suc a) c h = absurd (omega arith)
bit_or-disjoint (suc s) a c h =
    let small : a / 2 < 2 ^ s = omega (arith, double_pow s) in
    let (left, right) = bit_or-disjoint s (a / 2) c small in
    let half : 2 * (c * 2 ^ s) / 2 ≡ c * 2 ^ s = omega arith in
    rw (shifted c s) (
      omega (arith, bit_or_step a (2 * (c * 2 ^ s)), left, ap (λ (t : ℕ). bit_or (a / 2) t) half),
      omega (arith, bit_or_step (2 * (c * 2 ^ s)) a, right, ap (λ (t : ℕ). bit_or t (a / 2)) half),
    )
