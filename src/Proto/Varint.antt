-- ===== src/Proto/Varint.antt =====
-- cmd/hm-cisco-iot-orchestrator-collector/protobuf.go: the protobuf encoding of numbers and of
-- length-delimited fields, beside their readers.
use native.Mathlib.Nat.{pow-suc, mul-le-mul_right, div-add-mod, mod-eq_of_lt}
use mathlib.Core.List.{append_assoc}
use home_metrics.Base.{
  ℕ, zero, suc, ◌+◌, ◌*◌, ◌/◌, ◌%◌, ◌^◌, ◌<◌, ◌≡◌, ap, ◌∙◌, [], ◌∷◌, ◌++◌, arith, ltb, Bool-cases,
  ltb→lt, if◌then◌else◌, length, length-append, take-append, drop-append, inl, inr,
}
use home_metrics.Base.Bits.{bit_or-disjoint}
use home_metrics.Proto.{Bytes, ok, varint_loop, consume_varint, consume_bytes}

-- Seven bits a byte, lowest first, with 128 added to every byte but the last; for a number below
-- 128 ^ (k + 1).
unfoldable pub varint : ℕ → ℕ → Bytes
varint zero v = v ∷ []
varint (suc k) v =
    let rest = varint k (v / 128) in if ltb v 128 then v ∷ [] else (v % 128 + 128) ∷ rest

seven_apart : (i : ℕ) → 7 * (i + 1) ≡ suc (suc (suc (suc (suc (suc (suc (7 * i)))))))
seven_apart i = omega arith

seven_more : (i : ℕ) → 2 ^ (7 * (i + 1)) ≡ 128 * 2 ^ (7 * i)
seven_more i =
    let n = 7 * i in
    ap (λ m. 2 ^ m) (seven_apart i)
    ∙ omega (
      arith,
      pow-suc 2 (suc (suc (suc (suc (suc (suc n)))))),
      pow-suc 2 (suc (suc (suc (suc (suc n))))),
      pow-suc 2 (suc (suc (suc (suc n)))),
      pow-suc 2 (suc (suc (suc n))),
      pow-suc 2 (suc (suc n)),
      pow-suc 2 (suc n),
      pow-suc 2 n,
    )

-- A number in its lowest group and the others, at the place `p` and 128 places on.
split_group : (value w p q : ℕ) → q ≡ 128 * p → value + w % 128 * p + w / 128 * q ≡ value + w * p
split_group value w p q e =
    omega (arith, ap (λ t. t * p) (div-add-mod w 128), ap (λ t. w / 128 * t) e)

last_byte :
    (k i value w : ℕ) (rest : Bytes)
    → w < 128
    → value < 2 ^ (7 * i)
    → value + w * 2 ^ (7 * i) < 2 ^ 64
    → varint_loop (suc k) i value (w ∷ rest) ≡ ok (value + w * 2 ^ (7 * i), rest)
unfolding varint_loop
last_byte k i value w rest hw hv fits =
    ground (
      arith,
      mod-eq_of_lt {n = w * 2 ^ (7 * i)} {m = 2 ^ 64},
      (bit_or-disjoint (7 * i) value w hv).0,
    )

inner_byte :
    (k i value g : ℕ) (rest : Bytes)
    → g < 128
    → value < 2 ^ (7 * i)
    → value + g * 2 ^ (7 * i) < 2 ^ 64
    → varint_loop (suc k) i value ((g + 128) ∷ rest)
      ≡ varint_loop k (i + 1) (value + g * 2 ^ (7 * i)) rest
unfolding varint_loop
inner_byte k i value g rest hg hv fits = ground (arith, (bit_or-disjoint (7 * i) value g hv).0)

inner_bound :
    (i value g : ℕ) → value < 2 ^ (7 * i) → g < 128 → value + g * 2 ^ (7 * i) < 2 ^ (7 * (i + 1))
inner_bound i value g hv hg =
    omega (arith, seven_more i, mul-le-mul_right {m = g} {n = 127} (2 ^ (7 * i)) (omega arith))

varint_loop-varint :
    (k more i value w : ℕ) (rest : Bytes)
    → w < 128 ^ suc k
    → k < more
    → value < 2 ^ (7 * i)
    → value + w * 2 ^ (7 * i) < 2 ^ 64
    → varint_loop more i value (varint k w ++ rest) ≡ ok (value + w * 2 ^ (7 * i), rest)
unfolding varint
varint_loop-varint k zero i value w rest hw hk hv fits = absurd (omega arith)
varint_loop-varint zero (suc more) i value w rest hw hk hv fits =
    last_byte more i value w rest (omega arith) hv fits
varint_loop-varint (suc k) (suc more) i value w rest hw hk hv fits = elim (Bool-cases (ltb w 128)) [
  | inl e ↦ rw e (last_byte more i value w rest (ltb→lt w 128 e) hv fits)
  | inr e ↦ rw e (
      inner_byte more i value (w % 128) (varint k (w / 128) ++ rest) (omega arith) hv
        (omega (arith, split_group value w (2 ^ (7 * i)) (2 ^ (7 * (i + 1))) (seven_more i)))
      ∙ varint_loop-varint k more (i + 1) (value + w % 128 * 2 ^ (7 * i)) (w / 128) rest
          (omega (arith, pow-suc 128 (suc k))) (omega arith)
          (inner_bound i value (w % 128) hv (omega arith))
          (omega (arith, split_group value w (2 ^ (7 * i)) (2 ^ (7 * (i + 1))) (seven_more i)))
      ∙ ap (λ t. ok (t, rest))
          (split_group value w (2 ^ (7 * i)) (2 ^ (7 * (i + 1))) (seven_more i)))
]

-- Reading back a number below 2 ^ 64 written in the protobuf's seven-bit groups, whatever follows
-- it, gives the number and what follows.
pub consume_varint-varint :
    (v : ℕ) (rest : Bytes) → v < 2 ^ 64 → consume_varint (varint 9 v ++ rest) ≡ ok (v, rest)
unfolding consume_varint
consume_varint-varint v rest h =
    varint_loop-varint 9 10 0 0 v rest (omega arith) (omega arith) (omega arith) (omega arith)
    ∙ ap (λ t. ok (t, rest)) (omega arith)

-- A field of bytes as protobuf writes it: its length, then the bytes.
unfoldable pub delimited : Bytes → Bytes
delimited xs = varint 9 (length xs) ++ xs

-- Reading back a field of fewer than 2 ^ 64 bytes, written as its length and its bytes, whatever
-- follows it, gives the bytes and what follows.
pub consume_bytes-delimited :
    (xs rest : Bytes) → length xs < 2 ^ 64 → consume_bytes (delimited xs ++ rest) ≡ ok (xs, rest)
unfolding consume_bytes delimited
consume_bytes-delimited xs rest h =
    rw
      (
        append_assoc (varint 9 (length xs)) xs rest,
        consume_varint-varint (length xs) (xs ++ rest) h,
      )
      (ground (arith, length-append xs rest, take-append xs rest, drop-append xs rest))
