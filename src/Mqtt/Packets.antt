-- ===== src/Mqtt/Packets.antt =====
-- cmd/hm-cisco-iot-orchestrator-collector/mqtt.go: packets written and read, and a stream of published
-- messages.
use mathlib.Core.List.{append_assoc}
use native.Mathlib.Nat.{div-add-mod}
use home_metrics.Base.{
  ℕ, suc, ◌+◌, ◌*◌, ◌/◌, ◌%◌, ◌^◌, ◌≤◌, ◌<◌, ◌≡◌, refl, ap, ◌∙◌, List, [], ◌∷◌, ◌++◌, arith, ltb,
  leb, true, false, Option, some, All, if◌then◌else◌, length, length-append, take-append,
  drop-append,
}
use home_metrics.Mqtt.{
  Bytes, MqttError, ok, err, unexpected_eof, too_large, default_max_packet, write_string,
  write_packet, read_packet, parse_publish, run_loop, write_remaining_length,
}
use home_metrics.Mqtt.Length.{read_remaining_length-write}

-- The limit that `readMQTTPacket` applies.
abbrev pub limit : ℕ → ℕ
limit max_packet = if leb max_packet 0 then default_max_packet else max_packet

-- A packet whose payload is shorter than 2 ^ 28 bytes, followed by anything, is read back with its
-- type and its payload and leaves what follows, if its payload is within the limit (the default
-- limit where none is set); beyond the limit it is refused as too large.
pub read_packet-write_packet :
    (max_packet header : ℕ) (payload rest : Bytes)
    → length payload < 2 ^ 28
    → read_packet max_packet (write_packet header payload ++ rest) ≡ (
        if ltb (limit max_packet) (length payload)
        then err (too_large (length payload))
        else ok (header / 16, payload, rest))
unfolding read_packet write_packet
read_packet-write_packet max_packet header payload rest h =
    let short : ltb (length payload) (2 ^ 28) ≡ true = ground arith in
    rw
      (
        append_assoc (write_remaining_length (length payload)) payload rest,
        read_remaining_length-write (length payload) (payload ++ rest) (omega arith),
        short,
      )
      (ground
        (arith, length-append payload rest, take-append payload rest, drop-append payload rest))

-- The payload of a PUBLISH with quality of service 0: the topic, then the body.
unfoldable pub publish : Bytes × Bytes → Bytes
publish (topic, body) = write_packet 0x30 (write_string topic ++ body)

parse_publish-write_string :
    (topic body : Bytes)
    → length topic < 2 ^ 16
    → parse_publish (write_string topic ++ body) ≡ ok (topic, body)
unfolding parse_publish write_string
parse_publish-write_string topic body h =
    let whole : length topic / 256 % 256 * 256 + length topic % 256 ≡ length topic =
      omega (arith, div-add-mod (length topic) 256) in
    rw whole
      (ground (arith, length-append topic body, take-append topic body, drop-append topic body))

length-write_string : (topic : Bytes) → length (write_string topic) ≡ 2 + length topic
unfolding write_string
length-write_string topic = omega arith

unfoldable pub stream : List (Bytes × Bytes) → Bytes
stream [] = []
stream (m ∷ ms) = publish m ++ stream ms

within_limit : (l n : ℕ) → n ≤ l → ltb l n ≡ false
within_limit l n h = ground arith

-- A message that the connection accepts.
unfoldable pub IsShort : ℕ → Bytes × Bytes → Type 0
IsShort max_packet (topic, body) =
    (length topic < 2 ^ 16)
    × (2 + length topic + length body ≤ limit max_packet)
    × (2 + length topic + length body < 2 ^ 28)

-- A message in front of what the rest of the loop hands on.
abbrev pub handed :
    List (Bytes × Bytes)
    → List (Bytes × Bytes) × Option MqttError
    → List (Bytes × Bytes) × Option MqttError
handed ms r = (ms ++ r.0, r.1)

-- So many turns more as there are messages.
abbrev pub add_turns : List (Bytes × Bytes) → ℕ → ℕ
add_turns [] k = k
add_turns (m ∷ ms) k = suc (add_turns ms k)

run_loop-segment :
    (k max_packet : ℕ) (ms : List (Bytes × Bytes)) (later : List Bytes)
    → All (IsShort max_packet) ms
    → run_loop (add_turns ms k) max_packet (stream ms) later
      ≡ handed ms (run_loop k max_packet [] later)
unfolding stream IsShort publish run_loop read_packet
run_loop-segment k max_packet [] later h = refl
run_loop-segment k max_packet ((topic, body) ∷ ms) later h =
    let payload = write_string topic ++ body in
    let size : length payload ≡ 2 + length topic + length body =
      omega (arith, length-append (write_string topic) body, length-write_string topic) in
    let within : ltb (limit max_packet) (length payload) ≡ false =
      within_limit (limit max_packet) (length payload) (omega (arith, size, h.0.1)) in
    rw
      (
        run_loop,
        read_packet-write_packet max_packet 0x30 payload (stream ms) (omega (arith, size, h.0.2)),
        within,
        parse_publish-write_string topic body h.0.0,
        run_loop-segment k max_packet ms later h.1,
      )
      refl

-- The turn in which the deadline passes with nothing read, and the one that finds the connection closed.
run_loop-deadline :
    (k max_packet : ℕ) (s : Bytes) (ss : List Bytes)
    → run_loop (suc k) max_packet [] (s ∷ ss) ≡ run_loop k max_packet s ss
unfolding run_loop read_packet
run_loop-deadline k max_packet s ss = refl

run_loop-closed : (k max_packet : ℕ) → run_loop (suc k) max_packet [] [] ≡ ([], some unexpected_eof)
unfolding run_loop read_packet
run_loop-closed k max_packet = refl

abbrev pub streams : List (List (Bytes × Bytes)) → List Bytes
streams [] = []
streams (ms ∷ mss) = stream ms ∷ streams mss

abbrev pub joined : List (List (Bytes × Bytes)) → List (Bytes × Bytes)
joined [] = []
joined (ms ∷ mss) = ms ++ joined mss

-- The turns that suffice: one for each message, one for each passing of the deadline, and the last.
abbrev pub turns : List (List (Bytes × Bytes)) → ℕ
turns [] = 0
turns (ms ∷ mss) = add_turns ms (suc (turns mss))

-- From a connection that carries published messages, each with a topic of less than 2 ^ 16 bytes and
-- within the limits on a packet, where the read deadline passes any number of times but only between
-- packets, the loop of `runMQTT` hands every message to the callback, once and in order, and then ends
-- with the error of a connection that was closed. `turns` are enough.
pub run_loop-stream :
    (max_packet : ℕ) (ms : List (Bytes × Bytes)) (mss : List (List (Bytes × Bytes)))
    → All (IsShort max_packet) ms
    → All (All (IsShort max_packet)) mss
    → run_loop (turns (ms ∷ mss)) max_packet (stream ms) (streams mss)
      ≡ (ms ++ joined mss, some unexpected_eof)
run_loop-stream max_packet ms [] h k =
    run_loop-segment 1 max_packet ms [] h ∙ ap (handed ms) (run_loop-closed 0 max_packet)
run_loop-stream max_packet ms (ns ∷ mss) h k =
    run_loop-segment (suc (turns (ns ∷ mss))) max_packet ms (streams (ns ∷ mss)) h
    ∙ ap (handed ms) (
        run_loop-deadline (turns (ns ∷ mss)) max_packet (stream ns) (streams mss)
        ∙ run_loop-stream max_packet ns mss k.0 k.1)
