-- ===== src/Mqtt.antt =====
-- cmd/hm-cisco-iot-orchestrator-collector/mqtt.go: the packets of the MQTT connection. What a
-- reader still has to deliver is a list of bytes, each below 256; reading past its end is the
-- error that `io.ReadFull` gives.
pub mod Length
pub mod Packets
use home_metrics.Base.{
  ℕ, zero, suc, ◌+◌, ◌*◌, ◌/◌, ◌%◌, ◌-◌, Bool, true, false, List, [], ◌∷◌, ◌++◌, ltb, leb, ◌==◌,
  ◌||◌, not, if◌then◌else◌, length, take, drop, get_or, Option, none, some,
}

abbrev pub Bytes : Type 0
Bytes = List ℕ

pub data MqttError : Type 0 where
  unexpected_eof malformed_length : MqttError
  too_large : ℕ → MqttError
  unexpected_packet : ℕ → MqttError
  rejected : ℕ → MqttError

-- Nothing more could be read.
abbrev pub is_eof : MqttError → Bool
is_eof unexpected_eof = true
is_eof _ = false

pub data Reply {ℓ} (A : Type ℓ) : Type ℓ where
  ok : A → Reply A
  err : MqttError → Reply A

infixl 5 ◌>>=◌
abbrev pub ◌>>=◌ {ℓ κ} : {A : Type ℓ} {B : Type κ} → Reply A → (A → Reply B) → Reply B
ok a >>= f = f a
err e >>= f = err e

abbrev pub default_max_packet : ℕ
default_max_packet = 1048576

-- `k` turns of the loop of `writeRemainingLength`.
unfoldable pub write_loop : ℕ → ℕ → Bytes
write_loop zero l = []
write_loop (suc k) l =
    let more = write_loop k (l / 128) in
    if ltb 0 (l / 128) then (l % 128 + 128) ∷ more else l % 128 ∷ []

-- An `int` is below 2 ^ 63, so the loop takes nine turns at most.
unfoldable pub write_remaining_length : ℕ → Bytes
unfolding write_loop
write_remaining_length l = write_loop 9 l

unfoldable pub length_loop : ℕ → ℕ → ℕ → Bytes → Reply (ℕ × Bytes)
length_loop zero multiplier value input = err malformed_length
length_loop (suc i) multiplier value [] = err unexpected_eof
length_loop (suc i) multiplier value (b ∷ input) =
    let value' = value + b % 128 * multiplier in
    let more = length_loop i (multiplier * 128) value' input in
    if ltb b 128 then ok (value', input) else more

unfoldable pub read_remaining_length : Bytes → Reply (ℕ × Bytes)
unfolding length_loop
read_remaining_length input = length_loop 4 1 0 input

-- `binary.BigEndian.Uint16` of two bytes, and `binary.Write` of a `uint16`.
abbrev pub uint16_bytes : ℕ → Bytes
uint16_bytes n = n / 256 % 256 ∷ n % 256 ∷ []

-- `uint16(len(value))` keeps the low sixteen bits; `buf.WriteString` writes all of the value.
unfoldable pub write_string : Bytes → Bytes
write_string value = uint16_bytes (length value) ++ value

-- The bytes that `writeMQTTPacket` hands to the connection.
unfoldable pub write_packet : ℕ → Bytes → Bytes
unfolding write_remaining_length
write_packet header payload = header ∷ (write_remaining_length (length payload) ++ payload)

-- The packet type, the payload, and what the connection still has to deliver.
unfoldable pub read_packet : ℕ → Bytes → Reply (ℕ × Bytes × Bytes)
unfolding read_remaining_length
read_packet max_packet [] = err unexpected_eof
read_packet max_packet (header ∷ input) =
    let max_packet' = if leb max_packet 0 then default_max_packet else max_packet in
    read_remaining_length input >>= λ r.
    if ltb max_packet' r.0
    then err (too_large r.0)
    else if ltb (length r.1) r.0
    then err unexpected_eof
    else ok (header / 16, take r.0 r.1, drop r.0 r.1)

-- The topic and the body.
unfoldable pub parse_publish : Bytes → Reply (Bytes × Bytes)
parse_publish (hi ∷ lo ∷ rest) =
    let topic_len = hi * 256 + lo in
    if ltb (length rest) topic_len
    then err unexpected_eof
    else ok (take topic_len rest, drop topic_len rest)
parse_publish _ = err unexpected_eof

-- What `mqttConnect` writes.
unfoldable pub connect_packet : Bytes → Bytes → Bytes → Bytes
unfolding write_string write_packet
connect_packet client_id username password = write_packet 0x10 (
    write_string (77 ∷ 81 ∷ 84 ∷ 84 ∷ [])
    ++ 4
      ∷ 0xc2
      ∷ (uint16_bytes 60
          ++ write_string client_id
          ++ write_string username
          ++ write_string password))

-- `mqttConnect` after its write: the broker's answer.
unfoldable pub connect_reply : ℕ → Bytes → Reply Bytes
unfolding read_packet
connect_reply max_packet input = read_packet max_packet input >>= λ r.
    if not (r.0 == 2) || ltb (length r.1) 2
    then err (unexpected_packet r.0)
    else if get_or r.1 1 0 == 0
    then ok r.2
    else err (rejected (get_or r.1 1 0))

-- What `mqttSubscribe` writes.
unfoldable pub subscribe_packet : ℕ → Bytes → Bytes
unfolding write_string write_packet
subscribe_packet packet_id topic =
    write_packet 0x82 (uint16_bytes packet_id ++ write_string topic ++ 0 ∷ [])

unfoldable pub subscribe_reply : ℕ → Bytes → Reply Bytes
unfolding read_packet
subscribe_reply max_packet input = read_packet max_packet input >>= λ r.
    if not (r.0 == 9) || ltb (length r.1) 3
    then err (unexpected_packet r.0)
    else if get_or r.1 (length r.1 - 1) 0 == 0x80
    then err (rejected 0x80)
    else ok r.2

-- The packets that `runMQTT` hands to `onMessage`, in their order, and the error that ends its loop;
-- `k` turns are taken at most. The connection delivers `input`, and then the read deadline of a second
-- passes, as often as there are elements in `later`, which are the bytes that come after each passing;
-- behind the last of them the connection is closed. A turn whose read runs into the deadline is left,
-- with the bytes that it has read. The heartbeat, whose write may end the loop as well, is outside.
unfoldable pub run_loop : ℕ → ℕ → Bytes → List Bytes → List (Bytes × Bytes) × Option MqttError
unfolding read_packet parse_publish
run_loop zero max_packet input later = ([], none)
run_loop (suc k) max_packet input later = elim (read_packet max_packet input) [
  | err e ↦ elim (is_eof e) [
    | false ↦ ([], some e)
    | true ↦ elim later [ [] ↦ ([], some e) | s ∷ ss ↦ run_loop k max_packet s ss ]
  ]
  | ok r ↦
      let more = run_loop k max_packet r.2 later in
      if r.0 == 3
      then elim (parse_publish r.1) [ err e ↦ ([], some e) | ok m ↦ (m ∷ more.0, more.1) ]
      else more
]
