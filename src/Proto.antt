-- ===== src/Proto.antt =====
-- cmd/hm-cisco-iot-orchestrator-collector/protobuf.go: the reader of the protobuf messages that
-- arrive over MQTT. A byte slice is a list of numbers below 256.
pub mod Consume
pub mod Varint
pub mod Messages
use Prim.Native.Nat.{bit_or}
use home_metrics.Base.{
  ℕ, zero, suc, ◌+◌, ◌*◌, ◌/◌, ◌%◌, ◌^◌, Bool, true, false, List, [], ◌∷◌, ltb, ◌==◌, if◌then◌else◌,
  length, take, drop,
}

abbrev pub Bytes : Type 0
Bytes = List ℕ

-- `io.ErrUnexpectedEOF`, and the error of `skipProtoValue`.
pub data ProtoError : Type 0 where
  unexpected_eof : ProtoError
  unsupported_wire : ℕ → ProtoError

pub data Parse {ℓ} (A : Type ℓ) : Type ℓ where
  ok : A → Parse A
  err : ProtoError → Parse A

infixl 5 ◌>>=◌
abbrev pub ◌>>=◌ {ℓ κ} : {A : Type ℓ} {B : Type κ} → Parse A → (A → Parse B) → Parse B
ok a >>= f = f a
err e >>= f = err e

-- `uint64(b&0x7f) << uint(7*i)`.
abbrev pub group : ℕ → ℕ → ℕ
group b i = b % 128 * 2 ^ (7 * i) % 2 ^ 64

-- The loop of `consumeVarint` with `k` rounds left, at byte `i`.
unfoldable pub varint_loop : ℕ → ℕ → ℕ → Bytes → Parse (ℕ × Bytes)
varint_loop zero i value data' = err unexpected_eof
varint_loop (suc k) i value [] = err unexpected_eof
varint_loop (suc k) i value (b ∷ rest) =
    let value' = bit_or value (group b i) in
    let more = varint_loop k (i + 1) value' rest in if ltb b 0x80 then ok (value', rest) else more

unfoldable pub consume_varint : Bytes → Parse (ℕ × Bytes)
unfolding varint_loop
consume_varint data' = varint_loop 10 0 0 data'

-- The field number, the wire type and the rest.
unfoldable pub consume_key : Bytes → Parse (ℕ × ℕ × Bytes)
consume_key data' = do (key, rest) ← consume_varint data'; ok (key / 8, key % 8, rest)

unfoldable pub consume_bytes : Bytes → Parse (Bytes × Bytes)
consume_bytes data' = do
  (n, rest) ← consume_varint data'
  if ltb (length rest) n then err unexpected_eof else ok (take n rest, drop n rest)

-- `string(value)` keeps the bytes.
unfoldable pub consume_string : Bytes → Parse (Bytes × Bytes)
unfolding consume_bytes
consume_string data' = consume_bytes data'

abbrev skip_fixed : ℕ → Bytes → Parse Bytes
skip_fixed n data' = if ltb (length data') n then err unexpected_eof else ok (drop n data')

unfoldable pub skip_value : ℕ → Bytes → Parse Bytes
skip_value wire data' =
    if wire == 0
    then (do (v, rest) ← consume_varint data'; ok rest)
    else if wire == 1
    then skip_fixed 8 data'
    else if wire == 2
    then (do (v, rest) ← consume_bytes data'; ok rest)
    else if wire == 5
    then skip_fixed 4 data'
    else err (unsupported_wire wire)
