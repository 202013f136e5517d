-- ===== src/Echonet/Values.antt =====
-- cmd/hm-echonet-collector/main.go: `decodeUnsigned` and `decodeSigned` read big-endian numbers.
use Prim.Native.Nat.{bit_or}
use native.Mathlib.Nat.{
  one-le-pow, mul-le-mul_right, mul-div_cancel, div-eq_of_lt-le, pow-suc, pow-le-pow_right,
  lt_of_lt_of_le, div-add-mod, mod-eq_of_lt,
}
use home_metrics.Base.{
  ℕ, zero, suc, ◌+◌, ◌*◌, ◌-◌, ◌/◌, ◌%◌, ◌^◌, ◌≤◌, ◌<◌, ◌≡◌, refl, ap, ◌∙◌, [], ◌∷◌, ◌++◌, arith,
  length, length-append, ltb, lt→ltb, true, false,
}
use home_metrics.Base.Int.{ℤ, pos, negsuc}
use home_metrics.Base.Float.{Float64}
use home_metrics.Base.Bits.{bit_or-disjoint}
use home_metrics.Echonet.{
  Bytes, ok, big_endian, int64_of, shift_right, decode_unsigned, decode_signed,
}

-- Independent of the code: `n` bytes, the highest first.
unfoldable pub be_bytes : ℕ → ℕ → Bytes
be_bytes zero v = []
be_bytes (suc n) v = be_bytes n (v / 256) ++ v % 256 ∷ []

-- The two's complement of a number in `n` bytes, and the numbers that have one.
unfoldable pub complement : ℕ → ℤ → ℕ
complement n (pos v) = v
complement n (negsuc v) = 256 ^ n - 1 - v

unfoldable pub Fits : ℕ → ℤ → Type 0
Fits n (pos v) = 2 * v < 256 ^ n
Fits n (negsuc v) = 2 * (v + 1) ≤ 256 ^ n

length-be_bytes : (n v : ℕ) → length (be_bytes n v) ≡ n
unfolding be_bytes
length-be_bytes zero v = refl
length-be_bytes (suc n) v =
    omega (arith, length-append (be_bytes n (v / 256)) (v % 256 ∷ []), length-be_bytes n (v / 256))

big_endian-append :
    (acc : ℕ) (xs ys : Bytes) → big_endian acc (xs ++ ys) ≡ big_endian (big_endian acc xs) ys
unfolding big_endian
big_endian-append acc [] ys = refl
big_endian-append acc (x ∷ xs) ys = big_endian-append (bit_or (acc * 2 ^ 8 % 2 ^ 64) x) xs ys

big_endian-be_bytes : (n v : ℕ) → v < 256 ^ n → v < 2 ^ 64 → big_endian 0 (be_bytes n v) ≡ v
unfolding big_endian be_bytes
big_endian-be_bytes zero v h small = omega arith
big_endian-be_bytes (suc n) v h small =
    big_endian-append 0 (be_bytes n (v / 256)) (v % 256 ∷ [])
    ∙ rw
        (
          big_endian-be_bytes n (v / 256) (omega (arith, pow-suc 256 n)) (omega arith),
          mod-eq_of_lt {n = v / 256 * 2 ^ 8} {m = 2 ^ 64} (omega arith),
          (bit_or-disjoint 8 (v % 256) (v / 256) (omega arith)).1,
        )
        (omega (arith, div-add-mod v 256))

eight_bytes : (n : ℕ) → n ≤ 8 → 256 ^ n ≤ 2 ^ 64
eight_bytes n h = pow-le-pow_right {n = 256} (omega arith) h

-- Of one to eight bytes, `decodeUnsigned` gives the number that they spell.
pub decode_unsigned-be_bytes :
    (fl : Float64) (n v : ℕ)
    → 0 < n
    → n ≤ 8
    → v < 256 ^ n
    → decode_unsigned fl (be_bytes n v) ≡ ok (fl.of_int (pos v))
unfolding decode_unsigned
decode_unsigned-be_bytes fl n v h l small =
    rw (length-be_bytes n v, big_endian-be_bytes n v small (lt_of_lt_of_le small (eight_bytes n l)))
      (ground arith)

suc_first : (n m : ℕ) → n + m + 1 ≡ suc n + m
suc_first n m = omega arith

zero_first : (m : ℕ) → m ≡ zero + m
zero_first m = omega arith

eight_apart : (i : ℕ) → 8 * (i + 1) ≡ suc (suc (suc (suc (suc (suc (suc (suc (8 * i))))))))
eight_apart i = omega arith

eight_more : (i : ℕ) → 2 ^ (8 * (i + 1)) ≡ 256 * 2 ^ (8 * i)
eight_more i =
    let n = 8 * i in
    ap (λ m. 2 ^ m) (eight_apart i)
    ∙ omega (
      arith,
      pow-suc 2 (suc (suc (suc (suc (suc (suc (suc n))))))),
      pow-suc 2 (suc (suc (suc (suc (suc (suc n)))))),
      pow-suc 2 (suc (suc (suc (suc (suc n))))),
      pow-suc 2 (suc (suc (suc (suc n)))),
      pow-suc 2 (suc (suc (suc n))),
      pow-suc 2 (suc (suc n)),
      pow-suc 2 (suc n),
      pow-suc 2 n,
    )

bytes_and_bits : (n m : ℕ) → 256 ^ n * 2 ^ (8 * m) ≡ 2 ^ (8 * (n + m))
bytes_and_bits zero m = omega (arith, ap (λ t. 2 ^ (8 * t)) (zero_first m))
bytes_and_bits (suc n) m = omega (
  arith,
  ap (λ t. t * 2 ^ (8 * m)) (pow-suc 256 n),
  bytes_and_bits n m,
  eight_more (n + m),
  ap (λ t. 2 ^ (8 * t)) (suc_first n m),
)

whole_word : (n : ℕ) → n ≤ 8 → 256 ^ n * 2 ^ (64 - n * 8) ≡ 2 ^ 64
whole_word n h =
    let bits : 64 - n * 8 ≡ 8 * (8 - n) = omega arith in
    let all : n + (8 - n) ≡ 8 = omega arith in
    rw bits (bytes_and_bits n (8 - n) ∙ ap (λ t. 2 ^ (8 * t)) all)

-- A number that takes less than half of `q` values, shifted to the top of a word by `p` and back.
high_half : (w : ℕ) → 2 ^ 63 ≤ w → ltb w (2 ^ 63) ≡ false
high_half w h = ground arith

extend_pos :
    (v p q : ℕ)
    → 0 < p
    → q * p ≡ 2 ^ 64
    → 2 * v < q
    → (v * p % 2 ^ 64 ≡ v * p) × (ltb (v * p) (2 ^ 63) ≡ true) × (v * p / p ≡ v)
extend_pos v p q h e half =
    let room : (2 * v + 1) * p ≤ q * p = mul-le-mul_right p (omega arith) in
    (
      mod-eq_of_lt (omega (arith, e, room)),
      lt→ltb (v * p) (2 ^ 63) (omega (arith, e, room)),
      mul-div_cancel v h,
    )

difference : (x y p w : ℕ) → (x + y) * p ≡ w → x * p ≡ w - y * p
difference x y p w e = omega (arith, e)

extend_neg :
    (v p q : ℕ)
    → 0 < p
    → q * p ≡ 2 ^ 64
    → 2 * (v + 1) ≤ q
    → ((q - 1 - v) * p % 2 ^ 64 ≡ 2 ^ 64 - (v + 1) * p)
      × (ltb (2 ^ 64 - (v + 1) * p) (2 ^ 63) ≡ false)
      × ((2 ^ 64 - 1 - (2 ^ 64 - (v + 1) * p)) / p ≡ v)
extend_neg v p q h e half =
    let room : 2 * (v + 1) * p ≤ q * p = mul-le-mul_right p half in
    let apart : q - 1 - v + (v + 1) ≡ q = omega arith in
    let value = difference (q - 1 - v) (v + 1) p (2 ^ 64) (ap (λ t. t * p) apart ∙ e) in
    let below : (v + 1) * p ≤ q * p = mul-le-mul_right p (omega arith) in
    (
      rw value (mod-eq_of_lt (omega (arith, below))),
      high_half (2 ^ 64 - (v + 1) * p) (omega (arith, room, e)),
      div-eq_of_lt-le p {m = 2 ^ 64 - 1 - (2 ^ 64 - (v + 1) * p)} (omega (arith, e, below))
          (omega (arith, e, below)),
    )

shifted_back :
    (n : ℕ) (z : ℤ)
    → n ≤ 8
    → Fits n z
    → shift_right (int64_of (complement n z * 2 ^ (64 - n * 8) % 2 ^ 64)) (64 - n * 8) ≡ z
unfolding Fits complement
shifted_back n (pos v) h fits =
    let (word, positive, back) =
      extend_pos v (2 ^ (64 - n * 8)) (256 ^ n) (one-le-pow (64 - n * 8) 2 (omega arith))
        (whole_word n h) fits in
    rw (word, positive) (ap pos back)
shifted_back n (negsuc v) h fits =
    let (word, negative, back) =
      extend_neg v (2 ^ (64 - n * 8)) (256 ^ n) (one-le-pow (64 - n * 8) 2 (omega arith))
        (whole_word n h) fits in
    rw (word, negative) (ap negsuc back)

complement-bound : (n : ℕ) (z : ℤ) → Fits n z → complement n z < 256 ^ n
unfolding complement Fits
complement-bound n (pos v) fits = omega arith
complement-bound n (negsuc v) fits = omega (arith, one-le-pow n 256 (omega arith))

-- For a signed number that fits into one to eight bytes, `decodeSigned` of its two's complement, the
-- highest byte first, gives the number, negative ones included.
pub decode_signed-complement :
    (fl : Float64) (n : ℕ) (z : ℤ)
    → 0 < n
    → n ≤ 8
    → Fits n z
    → decode_signed fl (be_bytes n (complement n z)) ≡ ok (fl.of_int z)
unfolding decode_signed
decode_signed-complement fl n z h l fits =
    let bound = complement-bound n z fits in
    rw
      (
        length-be_bytes n (complement n z),
        big_endian-be_bytes n (complement n z) bound (lt_of_lt_of_le bound (eight_bytes n l)),
        shifted_back n z l fits,
      )
      (ground arith)
