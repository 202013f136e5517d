-- ===== src/Proto/Messages.antt =====
-- cmd/hm-cisco-iot-orchestrator-collector/protobuf.go: the message loops. Each is a loop
-- over the fields of a message, on fuel: the length of the input, since every field takes a byte at
-- least.
pub mod Total
pub mod Batch
use home_metrics.Base.{
  ℕ, zero, suc, ◌+◌, ◌-◌, ◌/◌, ◌%◌, ◌^◌, Bool, true, false, ◌&&◌, ◌||◌, not, List, [], ◌∷◌, ◌++◌,
  Option, none, some, ltb, ◌==◌, if◌then◌else◌, length,
}
use home_metrics.Base.Int.{ℤ, pos, negsuc, eqb_ℤ, ◌+ℤ◌, wrap64}
use home_metrics.Proto.{
  Bytes, ProtoError, unexpected_eof, Parse, ok, err, consume_varint, consume_key, consume_bytes,
  consume_string, skip_value,
}

pub data Outcome : Type 0 where
  finished : Outcome
  failed : ProtoError → Outcome
  out_of_fuel : Outcome

-- `step` handles the value of one field: it returns the message so far, and the rest or an error.
module _ {M : Type 0} (step : ℕ → ℕ → Bytes → M → M × Parse Bytes) where
  unfoldable pub fields_loop : ℕ → Bytes → M → M × Outcome
  fields_loop fuel [] m = (m, finished)
  fields_loop zero (b ∷ bs) m = (m, out_of_fuel)
  fields_loop (suc fuel) (b ∷ bs) m = elim (consume_key (b ∷ bs)) [
    | err e ↦ (m, failed e)
    | ok (field, wire, rest) ↦
        let (m', r) = step field wire rest m in
        elim r [ err e ↦ (m', failed e) | ok rest' ↦ fields_loop fuel rest' m' ]
  ]

  unfoldable pub fields : Bytes → M → M × Outcome
  unfolding fields_loop
  fields data' m = fields_loop (length data') data' m

-- The result of a loop that returns its message only without an error.
abbrev pub result : {M : Type 0} → M × Outcome → Parse M
result (m, finished) = ok m
result (m, failed e) = err e
result (m, out_of_fuel) = err unexpected_eof

-- A value, or what Go's assignment leaves in the variable beside an error.
abbrev pub assigned : {A : Type 0} → A → Parse (A × Bytes) → A
assigned d (ok (a, rest)) = a
assigned d (err e) = d

abbrev pub remaining : {A : Type 0} → Parse (A × Bytes) → Parse Bytes
remaining (ok (a, rest)) = ok rest
remaining (err e) = err e

-- `int32(value)` and `int64(value)`.
abbrev pub to_int32 : ℕ → ℤ
to_int32 v = let w = v % 2 ^ 32 in if ltb w (2 ^ 31) then pos w else negsuc (2 ^ 32 - w - 1)

abbrev pub to_int64 : ℕ → ℤ
to_int64 v = let w = v % 2 ^ 64 in if ltb w (2 ^ 63) then pos w else negsuc (2 ^ 64 - w - 1)

-- A `time.Time` that a message carries: the zero time, or `time.Unix(seconds, nanos).UTC()`.
pub data Stamp : Type 0 where
  zero_time : Stamp
  unix : ℤ → ℤ → Stamp

abbrev timestamp_step : ℕ → ℕ → Bytes → ℤ × ℤ → (ℤ × ℤ) × Parse Bytes
timestamp_step field wire rest (seconds, nanos) =
    let v = consume_varint rest in
    if field == 1
    then ((to_int64 (assigned 0 v), nanos), remaining v)
    else if field == 2
    then ((seconds, to_int32 (assigned 0 v)), remaining v)
    else ((seconds, nanos), skip_value wire rest)

abbrev stamp_of : (ℤ × ℤ) × Outcome → Stamp
stamp_of ((seconds, nanos), finished) =
    if eqb_ℤ seconds (pos 0) && eqb_ℤ nanos (pos 0) then zero_time else unix seconds nanos
stamp_of (m, _) = zero_time

unfoldable pub parse_timestamp : Bytes → Stamp
unfolding fields
parse_timestamp data' = stamp_of (fields timestamp_step data' (pos 0, pos 0))

-- The MAC address and the signal strength; what was read before an error is kept.
abbrev pub advertisement_step : ℕ → ℕ → Bytes → Bytes × Option ℤ → (Bytes × Option ℤ) × Parse Bytes
advertisement_step field wire rest (mac, rssi) =
    let s = consume_string rest in
    let v = consume_varint rest in
    if field == 1
    then ((assigned [] s, rssi), remaining s)
    else if field == 2
    then ((mac, some (to_int32 (assigned 0 v))), remaining v)
    else ((mac, rssi), skip_value wire rest)

unfoldable pub parse_advertisement : Bytes → Bytes × Option ℤ
unfolding fields
parse_advertisement data' = (fields advertisement_step data' ([], none)).0

-- The loop of `parseApplicationEvent`, which returns from inside.
application_loop : ℕ → Bytes → Bytes
application_loop fuel [] = []
application_loop zero (b ∷ bs) = []
application_loop (suc fuel) (b ∷ bs) = elim (consume_key (b ∷ bs)) [
  | err e ↦ []
  | ok (field, wire, rest) ↦ elim (field == 1 && wire == 2) [
    | true ↦ assigned [] (consume_string rest)
    | false ↦ elim (skip_value wire rest) [ err e ↦ [] | ok rest' ↦ application_loop fuel rest' ]
  ]
]

unfoldable pub parse_application : Bytes → Bytes
unfolding application_loop
parse_application data' = application_loop (length data') data'

pub record Subscription : Type 0 where
  pub device_id : Bytes
  pub payload : Bytes
  pub ts : Stamp
  pub ap_mac : Bytes
  pub ble_mac : Bytes
  pub rssi : Option ℤ
  pub application : Bytes

abbrev pub empty_subscription : Subscription
empty_subscription = record {
  device_id = [];
  payload = [];
  ts = zero_time;
  ap_mac = [];
  ble_mac = [];
  rssi = none;
  application = [];
}

unfoldable pub subscription_step : ℕ → ℕ → Bytes → Subscription → Subscription × Parse Bytes
subscription_step field wire rest m =
    let s = consume_string rest in
    let b = consume_bytes rest in
    let value = assigned [] b in
    let (mac, rssi) = parse_advertisement value in
    if field == 1
    then (record m { device_id = assigned [] s }, remaining s)
    else if field == 2
    then (record m { payload = value }, remaining b)
    else if field == 3
    then (record m { ts = parse_timestamp value }, remaining b)
    else if field == 4
    then (record m { ap_mac = assigned [] s }, remaining s)
    else if field == 12
    then (record m { ble_mac = mac; rssi = rssi }, remaining b)
    else if field == 16
    then (record m { application = parse_application value }, remaining b)
    else (m, skip_value wire rest)

unfoldable pub parse_subscription : Bytes → Parse Subscription
unfolding fields
parse_subscription data' = result (fields subscription_step data' empty_subscription)

unfoldable pub batch_step : ℕ → ℕ → Bytes → List Subscription → List Subscription × Parse Bytes
batch_step field wire rest messages =
    if not (field == 1) || not (wire == 2)
    then (messages, skip_value wire rest)
    else elim (consume_bytes rest) [
      | err e ↦ (messages, err e)
      | ok (item, rest') ↦ elim (parse_subscription item) [
        | err e ↦ (messages, err e)
        | ok m ↦ (messages ++ (m ∷ []), ok rest')
      ]
    ]

unfoldable pub parse_batch : Bytes → Parse (List Subscription)
unfolding fields
parse_batch data' = result (fields batch_step data' [])
