-- ===== src/Proto/Consume.antt =====
-- cmd/hm-cisco-iot-orchestrator-collector/protobuf.go: what the consuming functions
-- leave of their input.
use Prim.Native.Nat.{bit_or}
use home_metrics.Base.{
  ℕ, zero, suc, ◌+◌, ◌≤◌, ◌<◌, ◌≡◌, refl, [], ◌∷◌, ◌++◌, arith, length, length-drop, length-append,
  take-append_le, drop-append_le,
}
use home_metrics.Proto.{
  Bytes, Parse, ok, err, ◌>>=◌, group, varint_loop, consume_varint, consume_key, consume_bytes,
  skip_value,
}

varint_loop_shorter :
    (k i value : ℕ) (data' : Bytes) (v : ℕ) (rest : Bytes)
    → varint_loop k i value data' ≡ ok (v, rest)
    → length rest < length data'
unfolding varint_loop
varint_loop_shorter zero i value data' v rest e = absurd (ground arith)
varint_loop_shorter (suc k) i value [] v rest e = absurd (ground arith)
varint_loop_shorter (suc k) i value (b ∷ bs) v rest e =
    ground (arith, varint_loop_shorter k (i + 1) (bit_or value (group b i)) bs v rest)

pub consume_varint_shorter :
    (data' : Bytes) (v : ℕ) (rest : Bytes)
    → consume_varint data' ≡ ok (v, rest)
    → length rest < length data'
unfolding consume_varint
consume_varint_shorter data' v rest e = varint_loop_shorter 10 0 0 data' v rest e

-- A chain that succeeds has a first step that succeeds, and what follows it gives the value.
first_step :
    {A B : Type 0} (next : A → Parse B) (value : B) (first : Parse A)
    → (first >>= next) ≡ ok value
    → (a : A) × (first ≡ ok a) × (next a ≡ ok value)
first_step next value (err e) h = cc
first_step next value (ok a) h = (a, refl, h)

pub consume_key_shorter :
    (data' : Bytes) (field wire : ℕ) (rest : Bytes)
    → consume_key data' ≡ ok (field, wire, rest)
    → length rest < length data'
unfolding consume_key
consume_key_shorter data' field wire rest e =
    let ((key, rest'), c, d) = first_step _ _ (consume_varint data') e in
    ground (arith, consume_varint_shorter data' key rest' c, d)

pub consume_bytes_shorter :
    (data' value rest : Bytes) → consume_bytes data' ≡ ok (value, rest) → length rest < length data'
unfolding consume_bytes
consume_bytes_shorter data' value rest e =
    let ((n, rest'), c, d) = first_step _ _ (consume_varint data') e in
    ground (arith, consume_varint_shorter data' n rest' c, d, length-drop n rest')

skip_varint_shorter :
    (data' rest : Bytes)
    → (consume_varint data' >>= λ p. ok p.1) ≡ ok rest
    → length rest ≤ length data'
skip_varint_shorter data' rest e =
    let ((n, rest'), c, d) = first_step _ _ (consume_varint data') e in
    ground (arith, consume_varint_shorter data' n rest' c, d)

skip_bytes_shorter :
    (data' rest : Bytes)
    → (consume_bytes data' >>= λ p. ok p.1) ≡ ok rest
    → length rest ≤ length data'
skip_bytes_shorter data' rest e =
    let ((v, rest'), c, d) = first_step _ _ (consume_bytes data') e in
    ground (arith, consume_bytes_shorter data' v rest' c, d)

pub skip_value_shorter :
    (wire : ℕ) (data' rest : Bytes) → skip_value wire data' ≡ ok rest → length rest ≤ length data'
unfolding skip_value
skip_value_shorter wire data' rest e = ground (
  arith,
  skip_varint_shorter data' rest,
  skip_bytes_shorter data' rest,
  length-drop 8 data',
  length-drop 4 data',
)

-- More input behind what is consumed joins the rest.
varint_loop-append :
    (k i value : ℕ) (data' more : Bytes) (v : ℕ) (rest : Bytes)
    → varint_loop k i value data' ≡ ok (v, rest)
    → varint_loop k i value (data' ++ more) ≡ ok (v, rest ++ more)
unfolding varint_loop
varint_loop-append zero i value data' more v rest e = absurd (ground arith)
varint_loop-append (suc k) i value [] more v rest e = absurd (ground arith)
varint_loop-append (suc k) i value (b ∷ bs) more v rest e =
    ground (arith, varint_loop-append k (i + 1) (bit_or value (group b i)) bs more v rest)

pub consume_varint-append :
    (data' more : Bytes) (v : ℕ) (rest : Bytes)
    → consume_varint data' ≡ ok (v, rest)
    → consume_varint (data' ++ more) ≡ ok (v, rest ++ more)
unfolding consume_varint
consume_varint-append data' more v rest e = varint_loop-append 10 0 0 data' more v rest e

pub consume_key-append :
    (data' more : Bytes) (field wire : ℕ) (rest : Bytes)
    → consume_key data' ≡ ok (field, wire, rest)
    → consume_key (data' ++ more) ≡ ok (field, wire, rest ++ more)
unfolding consume_key
consume_key-append data' more field wire rest e =
    let ((key, rest'), c, d) = first_step _ _ (consume_varint data') e in
    rw (consume_varint-append data' more key rest' c) (ground (arith, d))

pub consume_bytes-append :
    (data' more value rest : Bytes)
    → consume_bytes data' ≡ ok (value, rest)
    → consume_bytes (data' ++ more) ≡ ok (value, rest ++ more)
unfolding consume_bytes
consume_bytes-append data' more value rest e =
    let ((n, rest'), c, d) = first_step _ _ (consume_varint data') e in
    rw (consume_varint-append data' more n rest' c) (
      ground (
        arith,
        d,
        length-append rest' more,
        take-append_le n rest' more,
        drop-append_le n rest' more,
      ))

skip_varint-append :
    (data' more rest : Bytes)
    → (consume_varint data' >>= λ p. ok p.1) ≡ ok rest
    → (consume_varint (data' ++ more) >>= λ p. ok p.1) ≡ ok (rest ++ more)
skip_varint-append data' more rest e =
    let ((n, rest'), c, d) = first_step _ _ (consume_varint data') e in
    rw (consume_varint-append data' more n rest' c) (ground (arith, d))

skip_bytes-append :
    (data' more rest : Bytes)
    → (consume_bytes data' >>= λ p. ok p.1) ≡ ok rest
    → (consume_bytes (data' ++ more) >>= λ p. ok p.1) ≡ ok (rest ++ more)
skip_bytes-append data' more rest e =
    let ((v, rest'), c, d) = first_step _ _ (consume_bytes data') e in
    rw (consume_bytes-append data' more v rest' c) (ground (arith, d))

pub skip_value-append :
    (wire : ℕ) (data' more rest : Bytes)
    → skip_value wire data' ≡ ok rest
    → skip_value wire (data' ++ more) ≡ ok (rest ++ more)
unfolding skip_value
skip_value-append wire data' more rest e = ground (
  arith,
  skip_varint-append data' more rest,
  skip_bytes-append data' more rest,
  length-append data' more,
  drop-append_le 8 data' more,
  drop-append_le 4 data' more,
)
