-- ===== src/Tests/Wire.antt =====
-- Protobuf and MQTT bytes.
use home_metrics.Base.{
  ltb, ◌/◌, if◌then◌else◌, ◌≡◌, ◌≢◌, refl, List, [], ◌∷◌, ◌++◌, some, arith, All,
}
use home_metrics.Proto.{
  Bytes, varint_loop, consume_varint, consume_key, consume_bytes, consume_string,
}
use home_metrics.Proto.{ok, ◌>>=◌}
use home_metrics.Proto.Messages.{
  Subscription, empty_subscription, out_of_fuel, fields, fields_loop, subscription_step, batch_step,
  parse_subscription, parse_batch,
}
use home_metrics.Proto.Messages.Total.{messages-end}
use home_metrics.Proto.Messages.Batch.{parse_batch-append}
use home_metrics.Ups.{read_nis_response}
use home_metrics.Ups.Frames.{sent, read_nis_response-sent}
use home_metrics.Mqtt
use home_metrics.Mqtt.Packets.{limit, read_packet-write_packet, stream, IsShort, run_loop-stream}

-- A batch of one subscription, whose device identifier is one byte.
abbrev one_message : Bytes
one_message = 0x0a ∷ 3 ∷ 0x0a ∷ 1 ∷ 65 ∷ []

abbrev device : Subscription
device = record empty_subscription { device_id = 65 ∷ [] }

one_message_parses : parse_batch one_message ≡ ok (device ∷ [])
unfolding parse_batch fields fields_loop batch_step subscription_step parse_subscription consume_key
    consume_bytes consume_string consume_varint varint_loop
one_message_parses = refl

parse_batch-append_example :
    parse_batch (one_message ++ 0x0a ∷ 0 ∷ [])
    ≡ (parse_batch (0x0a ∷ 0 ∷ []) >>= λ ys. ok (device ∷ [] ++ ys))
parse_batch-append_example =
    parse_batch-append one_message (0x0a ∷ 0 ∷ []) (device ∷ []) one_message_parses

messages-end_example :
    ((fields batch_step (0x0a ∷ 200 ∷ []) []).1 ≢ out_of_fuel)
    × ((fields subscription_step (0x0a ∷ 200 ∷ []) empty_subscription).1 ≢ out_of_fuel)
messages-end_example = messages-end (0x0a ∷ 200 ∷ []) [] empty_subscription

-- A packet of three bytes where two are allowed.
read_packet-write_packet_example :
    Mqtt.read_packet 2 (Mqtt.write_packet 0x30 (1 ∷ 2 ∷ 3 ∷ []) ++ 0xd0 ∷ []) ≡ (
      if ltb (limit 2) 3
      then Mqtt.err (Mqtt.too_large 3)
      else Mqtt.ok (0x30 / 16, 1 ∷ 2 ∷ 3 ∷ [], 0xd0 ∷ []))
read_packet-write_packet_example =
    read_packet-write_packet 2 0x30 (1 ∷ 2 ∷ 3 ∷ []) (0xd0 ∷ []) (omega arith)

abbrev two_publishes : List (Bytes × Bytes)
two_publishes = (97 ∷ [], 1 ∷ 2 ∷ []) ∷ (98 ∷ [], []) ∷ []

two_publishes-IsShort : All (IsShort 0) two_publishes
unfolding IsShort
two_publishes-IsShort =
    ((omega arith, omega arith, omega arith), ((omega arith, omega arith, omega arith), tt))

run_loop-stream_example :
    Mqtt.run_loop 7 0 (stream two_publishes) (stream [] ∷ stream two_publishes ∷ [])
    ≡ (two_publishes ++ two_publishes, some Mqtt.unexpected_eof)
run_loop-stream_example =
    run_loop-stream 0 two_publishes ([] ∷ two_publishes ∷ []) two_publishes-IsShort
      (tt, (two_publishes-IsShort, tt))

-- A deadline that passes within a packet loses it.
cut_packet :
    Mqtt.run_loop 3 0 (0x30 ∷ 3 ∷ 0 ∷ []) ((1 ∷ 97 ∷ []) ∷ []) ≡ ([], some Mqtt.unexpected_eof)
unfolding Mqtt.run_loop
cut_packet = refl

read_nis_response-sent_example :
    read_nis_response (0 ∷ 2 ∷ 65 ∷ 66 ∷ 0 ∷ 1 ∷ 67 ∷ 0 ∷ 0 ∷ 9 ∷ []) ≡ some (65 ∷ 66 ∷ 67 ∷ [])
unfolding sent
read_nis_response-sent_example =
    read_nis_response-sent ((65 ∷ 66 ∷ []) ∷ (67 ∷ []) ∷ []) (0 ∷ 2 ∷ 65 ∷ 66 ∷ 0 ∷ 1 ∷ 67 ∷ [])
      (9 ∷ []) ((omega arith, omega arith), ((omega arith, omega arith), tt)) refl
