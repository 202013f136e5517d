-- ===== src/Mqtt/Length.antt =====
-- cmd/hm-cisco-iot-orchestrator-collector/mqtt.go: `writeRemainingLength` and
-- `readRemainingLength`.
use native.Mathlib.Nat.{pow-suc, one-le-pow, div-add-mod}
use home_metrics.Base.{
  ℕ, zero, suc, ◌+◌, ◌*◌, ◌/◌, ◌%◌, ◌^◌, ◌≤◌, ◌<◌, ◌≡◌, refl, ap, ◌∙◌, ◌∷◌, ◌++◌, arith, ltb,
  Bool-cases, ltb→lt, true, false, inl, inr, if◌then◌else◌,
}
use home_metrics.Mqtt.{
  Bytes, ok, err, malformed_length, write_loop, write_remaining_length, length_loop,
  read_remaining_length,
}

split_length : (value l m : ℕ) → value + l % 128 * m + l / 128 * (m * 128) ≡ value + l * m
split_length value l m = omega (arith, ap (λ t. t * m) (div-add-mod l 128))

loop_last :
    (i m value b : ℕ) (rest : Bytes)
    → b < 128
    → length_loop (suc i) m value (b ∷ rest) ≡ ok (value + b * m, rest)
unfolding length_loop
loop_last i m value b rest h = ground arith

loop_more :
    (i m value g : ℕ) (rest : Bytes)
    → g < 128
    → length_loop (suc i) m value ((g + 128) ∷ rest) ≡ length_loop i (m * 128) (value + g * m) rest
unfolding length_loop
loop_more i m value g rest h = ground arith

short_length :
    (k i m value l : ℕ) (rest : Bytes)
    → l < 128
    → length_loop (suc i) m value (write_loop (suc k) l ++ rest) ≡ ok (value + l * m, rest)
unfolding write_loop
short_length k i m value l rest h =
    let none_left : ltb 0 (l / 128) ≡ false = ground arith in
    let single : l % 128 ≡ l = omega arith in rw (none_left, single) (loop_last i m value l rest h)

long_length :
    (k i m value l : ℕ) (rest : Bytes)
    → 128 ≤ l
    → length_loop (suc i) m value (write_loop (suc k) l ++ rest)
      ≡ length_loop i (m * 128) (value + l % 128 * m) (write_loop k (l / 128) ++ rest)
unfolding write_loop
long_length k i m value l rest h =
    let some_left : ltb 0 (l / 128) ≡ true = ground arith in
    rw some_left (loop_more i m value (l % 128) (write_loop k (l / 128) ++ rest) (omega arith))

length_loop-write_loop :
    (k i m value l : ℕ) (rest : Bytes)
    → i < k
    → l < 128 ^ suc i
    → length_loop (suc i) m value (write_loop k l ++ rest) ≡ ok (value + l * m, rest)
length_loop-write_loop zero i m value l rest h b = absurd (omega arith)
length_loop-write_loop (suc k) zero m value l rest h b =
    short_length k zero m value l rest (omega arith)
length_loop-write_loop (suc k) (suc i) m value l rest h b = elim (Bool-cases (ltb l 128)) [
  | inl e ↦ short_length k (suc i) m value l rest (ltb→lt l 128 e)
  | inr e ↦
      long_length k (suc i) m value l rest (ground arith)
      ∙ length_loop-write_loop k i (m * 128) (value + l % 128 * m) (l / 128) rest (omega arith)
          (omega (arith, pow-suc 128 (suc i)))
      ∙ ap (λ t. ok (t, rest)) (split_length value l m)
]

length_loop-too_long :
    (k i m value l : ℕ) (rest : Bytes)
    → 128 ^ i ≤ l
    → l < 128 ^ k
    → length_loop i m value (write_loop k l ++ rest) ≡ err malformed_length
unfolding length_loop
length_loop-too_long k zero m value l rest low high = refl
length_loop-too_long zero (suc i) m value l rest low high =
    absurd (omega (arith, one-le-pow (suc i) 128 (omega arith)))
length_loop-too_long (suc k) (suc i) m value l rest low high =
    long_length k i m value l rest (omega (arith, pow-suc 128 i, one-le-pow i 128 (omega arith)))
    ∙ length_loop-too_long k i (m * 128) (value + l % 128 * m) (l / 128) rest
        (omega (arith, pow-suc 128 i)) (omega (arith, pow-suc 128 k))

-- For every `int` that is not negative, `readRemainingLength` reads back what
-- `writeRemainingLength` wrote and leaves what follows, if the number is below 2 ^ 28; otherwise it
-- refuses the length as malformed.
pub read_remaining_length-write :
    (l : ℕ) (rest : Bytes)
    → l < 2 ^ 63
    → read_remaining_length (write_remaining_length l ++ rest)
      ≡ (if ltb l (2 ^ 28) then ok (l, rest) else err malformed_length)
unfolding read_remaining_length write_remaining_length
read_remaining_length-write l rest h = elim (Bool-cases (ltb l (2 ^ 28))) [
  | inl e ↦ rw e (
      length_loop-write_loop 9 3 1 0 l rest (omega arith) (ltb→lt l (2 ^ 28) e)
      ∙ ap (λ t. ok (t, rest)) (omega arith))
  | inr e ↦ rw e (length_loop-too_long 9 4 1 0 l rest (ground arith) (omega arith))
]
