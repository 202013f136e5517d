-- ===== src/Decoder/Payload.antt =====
-- cmd/hm-cisco-iot-orchestrator-collector/decoder.go: `decodeBLEPayload`, `decodeServiceData`, and
-- the two Flower Care characteristics.
use home_metrics.Base.{
  ℕ, zero, suc, ◌*◌, ◌-◌, List, [], ◌∷◌, Option, none, some, ltb, leb, ◌==◌, ◌&&◌, ◌||◌,
  if◌then◌else◌, length, take, drop, get_or,
}
use home_metrics.Base.Int.{pos}
use home_metrics.Base.Float.{Float64}
use home_metrics.Base.Time.{Time, second, truncate_minute}
use home_metrics.Decoder.{
  Bytes, hex_encode, hex_decode, le16, le32, int8, int16, from_marker, looks_like_fe95, number,
  round, scaled, percent, decode_fe95,
}
use home_metrics.Decoder.Values.{Values, no_values, merge, sanitize_reading}

-- One structure of `serviceDataFromAdvertisement`: what it adds to `out`.
unfoldable pub structure_data : ℕ → Bytes → List Bytes → List Bytes
structure_data ad_type (lo ∷ hi ∷ data') out =
    let uuid = le16 lo hi in
    if (ad_type == 0x16)
      && ((uuid == 0xfe6a) || (uuid == 0xffe1) || (uuid == 0xfeaa) || (uuid == 0xfe95))
    then data' ∷ out
    else out
structure_data ad_type _ out = out

-- Its loop, on what is left of the payload. Each turn takes two bytes at least, so as many turns as
-- there are bytes are enough.
unfoldable pub structures_loop : ℕ → Bytes → List Bytes
unfolding structure_data
structures_loop zero data' = []
structures_loop (suc k) (n ∷ ad_type ∷ rest) =
    let out = structures_loop k (drop (n - 1) rest) in
    if n == 0
    then []
    else if ltb (length rest) (n - 1)
    then []
    else structure_data ad_type (take (n - 1) rest) out
structures_loop (suc k) _ = []

unfoldable pub service_data_from_advertisement : Bytes → List Bytes
unfolding structures_loop
service_data_from_advertisement data' = structures_loop (length data') data'

pub data GattError : Type 0 where
  too_short : GattError
  timestamp_invalid : ℕ → GattError
  timestamp_exceeds_epoch : ℕ → ℕ → GattError

pub data Decoded (A : Type 0) : Type 0 where
  ok : A → Decoded A
  err : GattError → Decoded A

module _ (fl : Float64) where
  -- `max`, of the candidates after the first.
  abbrev max_from : fl.F → List fl.F → fl.F
  max_from result [] = result
  max_from result (v ∷ vs) = max_from (if fl.lt result v then v else result) vs

  abbrev greatest : List fl.F → Option fl.F → Option fl.F
  greatest [] old = old
  greatest (v ∷ vs) old = some (max_from v vs)

  abbrev candidates : Bytes → List fl.F
  candidates [] = []
  candidates (b ∷ bs) =
      let more = candidates bs in if leb b 100 then fl.of_int (pos b) ∷ more else more

  -- The blocks of `decodeServiceData`, in their order.
  unfoldable pub read_a1 : Bytes → Values fl.F → Values fl.F
  read_a1 data' r =
      if leb 6 (length data') && (get_or data' 0 0 == 0xa1) && (get_or data' 1 0 == 0x01)
      then record r {
        battery_percent = number fl (get_or data' 2 0);
        temperature_c = some (fl.of_int (int8 (get_or data' 3 0)));
        humidity_percent = percent fl (get_or data' 5 0) r.humidity_percent;
      }
      else r

  unfoldable pub read_028002 : Bytes → Values fl.F → Values fl.F
  read_028002 data' r =
      if leb 5 (length data')
        && (get_or data' 0 0 == 0x02)
        && (get_or data' 1 0 == 0x80)
        && (get_or data' 2 0 == 0x02)
      then record r {
        battery_percent = greatest (candidates (take 2 (drop 3 data'))) r.battery_percent;
      }
      else r

  unfoldable pub read_temperature : Bytes → Values fl.F → Values fl.F
  unfolding from_marker scaled
  read_temperature data' r =
      let at = from_marker data' (0x03 ∷ 0x13 ∷ []) in
      if leb 4 (length at)
      then record r {
        temperature_c = some (scaled fl (int16 (le16 (get_or at 2 0) (get_or at 3 0))) 256 2);
      }
      else r

  unfoldable pub read_humidity : Bytes → Values fl.F → Values fl.F
  unfolding from_marker
  read_humidity data' r =
      let at = from_marker data' (0x02 ∷ 0x12 ∷ []) in
      if leb 3 (length at)
      then record r { humidity_percent = percent fl (get_or at 2 0) r.humidity_percent }
      else r

  unfoldable pub read_gas : Bytes → Values fl.F → Values fl.F
  unfolding from_marker
  read_gas data' r =
      let at = from_marker data' (0x04 ∷ 0x1f ∷ []) in
      let value = number fl (le16 (get_or at 3 0) (get_or at 4 0)) in
      if leb 5 (length at) && (get_or at 2 0 == 0x07)
      then record r { co2_ppm = value }
      else if leb 5 (length at) && (get_or at 2 0 == 0x08)
      then record r { etvoc = value }
      else r

  unfoldable pub read_lux : Bytes → Values fl.F → Values fl.F
  unfolding from_marker
  read_lux data' r =
      let at = from_marker data' (0x03 ∷ 0x20 ∷ []) in
      if leb 4 (length at)
      then record r { lux = number fl (le16 (get_or at 2 0) (get_or at 3 0)) }
      else r

  unfoldable pub read_environment : Bytes → Values fl.F → Values fl.F
  unfolding round read_gas read_lux
  read_environment data' r =
      let bits = le32 (get_or data' 3 0) (get_or data' 4 0) (get_or data' 5 0) (get_or data' 6 0) in
      if leb 7 (length data')
        && (get_or data' 0 0 == 0x03)
        && (get_or data' 1 0 == 0x05)
        && (get_or data' 2 0 == 0x17)
      then read_lux data'
          (read_gas data' (record r { pressure_hpa = some (round fl (fl.from_bits32 bits) 2) }))
      else r

  unfoldable pub decode_service_data : List ℕ → Values fl.F
  unfolding hex_decode looks_like_fe95 decode_fe95 sanitize_reading merge read_a1 read_028002
      read_temperature read_humidity read_environment
  decode_service_data payload_hex = elim (hex_decode payload_hex) [
    | none ↦ no_values fl.F
    | some data' ↦
        let read = read_environment data' (
          read_humidity data'
            (read_temperature data' (read_028002 data' (read_a1 data' (no_values fl.F))))) in
        if looks_like_fe95 data'
        then sanitize_reading fl (decode_fe95 fl data')
        else sanitize_reading fl (merge read (decode_fe95 fl data'))
  ]

  unfoldable pub merge_all : List Bytes → Values fl.F → Values fl.F
  unfolding decode_service_data hex_encode merge
  merge_all [] reading = reading
  merge_all (d ∷ ds) reading = merge_all ds (merge reading (decode_service_data (hex_encode d)))

  unfoldable pub decode_ble_payload : Bytes → Values fl.F
  unfolding service_data_from_advertisement decode_service_data merge_all hex_encode
  decode_ble_payload data' = elim (service_data_from_advertisement data') [
    | [] ↦ decode_service_data (hex_encode data')
    | d ∷ ds ↦ merge_all (d ∷ ds) (no_values fl.F)
  ]

  unfoldable pub decode_realtime : Bytes → Decoded (Values fl.F)
  unfolding scaled sanitize_reading
  decode_realtime data' =
      if ltb (length data') 10
      then err too_short
      else ok (
          sanitize_reading fl record (no_values fl.F) {
            temperature_c =
                some (scaled fl (int16 (le16 (get_or data' 0 0) (get_or data' 1 0))) 10 1);
            lux =
                number fl (
                  le32 (get_or data' 3 0) (get_or data' 4 0) (get_or data' 5 0) (get_or data' 6 0));
            soil_moisture_percent = number fl (get_or data' 7 0);
            conductivity_us_cm = number fl (le16 (get_or data' 8 0) (get_or data' 9 0));
          })

  -- The wall time of a history entry; `host` is after the 136 years that 2 ^ 32 seconds are.
  unfoldable pub history_wall_time : ℕ → ℕ → Time → Time
  history_wall_time timestamp epoch host =
      if ltb epoch timestamp then host else host - (epoch - timestamp) * second

  unfoldable pub decode_history : Bytes → ℕ → Time → Decoded (Time × Values fl.F)
  unfolding decode_realtime history_wall_time
  decode_history data' epoch host =
      let timestamp =
        le32 (get_or data' 0 0) (get_or data' 1 0) (get_or data' 2 0) (get_or data' 3 0) in
      if ltb (length data') 14
      then err too_short
      else if leb timestamp 1
      then err (timestamp_invalid timestamp)
      else if ltb epoch timestamp
      then err (timestamp_exceeds_epoch timestamp epoch)
      else elim (decode_realtime (drop 4 data')) [
        | err e ↦ err e
        | ok r ↦ ok (truncate_minute (history_wall_time timestamp epoch host), r)
      ]
