-- ===== src/Ble.antt =====
-- cmd/hm-ble-collector/main.go: the values of an advertisement, and the windows that they are added
-- to. The two metrics that this collector does not know are always none.
pub mod Filter
pub mod Flush
pub mod Ranges
pub mod Registry
pub mod Supported
use home_metrics.Base.{
  ℕ, List, [], ◌∷◌, ◌++◌, Option, none, some, leb, ◌==◌, ◌&&◌, if◌then◌else◌, length, get_or,
}
use home_metrics.Base.Int.{ℤ, pos, negsuc}
use home_metrics.Base.Float.{Float64}
use home_metrics.Base.Time.{Time}
use home_metrics.Base.Text.{Text, codes}
use home_metrics.Decoder.{Bytes, hex_encode, hex_decode, le32, round}
use home_metrics.Decoder.Values.{Values, no_values, sanitize_range}
use home_metrics.Decoder.Payload.{
  read_a1, read_028002, read_temperature, read_humidity, read_gas, read_lux,
}
use home_metrics.Sensor.{Reading}
use home_metrics.Windows
use home_metrics.Windows.{Window, ptr_key}

-- `firstServiceDataHex`: `service_data` has the bytes for each key of the property, in the order of
-- its keys; an entry of another type than bytes is none, and so is the property if it is not there.
abbrev first_bytes : List (Text × Option Bytes) → Text
first_bytes [] = []
first_bytes ((key, some (b ∷ bs)) ∷ entries) = hex_encode (b ∷ bs)
first_bytes (_ ∷ entries) = first_bytes entries

abbrev preferred : List Text
preferred =
    codes "0000fe6a-0000-1000-8000-00805f9b34fb"
    ∷ codes "0000ffe1-0000-1000-8000-00805f9b34fb"
    ∷ codes "0000feaa-0000-1000-8000-00805f9b34fb"
    ∷ []

abbrev preferred_bytes : (Text → Option Bytes) → List Text → Text → Text
preferred_bytes lookup [] otherwise = otherwise
preferred_bytes lookup (key ∷ keys) otherwise = elim (lookup key) [
  | none ↦ preferred_bytes lookup keys otherwise
  | some bytes ↦ elim bytes [
    | [] ↦ preferred_bytes lookup keys otherwise
    | b ∷ bs ↦ hex_encode (b ∷ bs)
  ]
]

unfoldable pub first_service_data_hex : (Text → Option Bytes) → List (Text × Option Bytes) → Text
unfolding hex_encode
first_service_data_hex lookup entries = preferred_bytes lookup preferred (first_bytes entries)

module _ (fl : Float64) where
  -- The last block of `decodeServiceData`.
  unfoldable pub read_environment : Bytes → Values fl.F → Values fl.F
  unfolding round read_gas read_lux
  read_environment data' r =
      let bits = le32 (get_or data' 3 0) (get_or data' 4 0) (get_or data' 5 0) (get_or data' 6 0) in
      if leb 24 (length data')
        && (get_or data' 0 0 == 0x03)
        && (get_or data' 1 0 == 0x05)
        && (get_or data' 2 0 == 0x17)
      then read_lux fl data'
          (read_gas fl data' (record r { pressure_hpa = some (round fl (fl.from_bits32 bits) 2) }))
      else r

  -- The other blocks are those of the other collector.
  unfoldable pub decode_service_data : Text → Values fl.F
  unfolding hex_decode read_a1 read_028002 read_temperature read_humidity read_environment
  decode_service_data payload_hex = elim (hex_decode payload_hex) [
    | none ↦ no_values fl.F
    | some data' ↦ read_environment data' (
        read_humidity fl data'
          (read_temperature fl data' (read_028002 fl data' (read_a1 fl data' (no_values fl.F)))))
  ]

  -- What `pollReadings` makes of a device with a payload; `signal` is its signal strength, if any.
  unfoldable pub polled : Time → Text → Text → Option ℤ → Reading fl.F
  unfolding decode_service_data
  polled now mac payload signal =
      let r = decode_service_data payload in
      record {
        ts = now;
        mac = mac;
        temperature_c = r.temperature_c;
        humidity_percent = r.humidity_percent;
        battery_percent = r.battery_percent;
        rssi = elim signal [ none ↦ none | some s ↦ some (fl.of_int s) ];
        pressure_hpa = r.pressure_hpa;
        co2_ppm = r.co2_ppm;
        lux = r.lux;
        etvoc = r.etvoc;
        soil_moisture_percent = none;
        conductivity_us_cm = none;
      }

  unfoldable pub sanitize_reading : Reading fl.F → Reading fl.F
  unfolding sanitize_range
  sanitize_reading r = record r {
    temperature_c = sanitize_range fl r.temperature_c (negsuc 39) (pos 85);
    humidity_percent = sanitize_range fl r.humidity_percent (pos 0) (pos 100);
    battery_percent = sanitize_range fl r.battery_percent (pos 0) (pos 100);
    rssi = sanitize_range fl r.rssi (negsuc 126) (pos 20);
    pressure_hpa = sanitize_range fl r.pressure_hpa (pos 300) (pos 1100);
    co2_ppm = sanitize_range fl r.co2_ppm (pos 0) (pos 10000);
    lux = sanitize_range fl r.lux (pos 0) (pos 65534);
    etvoc = sanitize_range fl r.etvoc (pos 0) (pos 60000);
    soil_moisture_percent = none;
    conductivity_us_cm = none;
  }

  -- `print` is `strconv.FormatFloat(v, 'f', -1, 64)`.
  unfoldable pub reading_key : (fl.F → Text) → Reading fl.F → Text
  reading_key print r =
      codes "rssi="
      ++ (ptr_key print r.rssi
          ++ (codes "|t="
              ++ (ptr_key print r.temperature_c
                  ++ (codes "|h="
                      ++ (ptr_key print r.humidity_percent
                          ++ (codes "|b="
                              ++ (ptr_key print r.battery_percent
                                  ++ (codes "|p="
                                      ++ (ptr_key print r.pressure_hpa
                                          ++ (codes "|co2="
                                              ++ (ptr_key print r.co2_ppm
                                                  ++ (codes "|lux="
                                                      ++ (ptr_key print r.lux
                                                          ++ (codes "|etvoc="
                                                            ++ ptr_key print r.etvoc))))))))))))))

  -- The times of the collector are local, so that a minute has one zone, and none is written.
  unfoldable pub add : (fl.F → Text) → Reading fl.F → List (Window fl.F) → List (Window fl.F)
  unfolding sanitize_reading reading_key Windows.add
  add print r ws = Windows.add (reading_key print) [] (sanitize_reading r) ws
