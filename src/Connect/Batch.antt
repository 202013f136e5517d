-- ===== src/Connect/Batch.antt =====
-- cmd/hm-cisco-iot-orchestrator-collector/protobuf.go: `decodeDataBatch`, from the payload of an MQTT
-- message to the readings that are added to the windows. A reading is without the label and the other
-- fields of the registry, which are never read.
use home_metrics.Base.{
  ℕ, Bool, Bool-cases, ◌≡◌, refl, subst, inl, inr, List, [], ◌∷◌, Option, none, some, ◌&&◌,
  if◌then◌else◌, All,
}
use home_metrics.Base.Int.{ℤ, pos, negsuc, ◌+ℤ◌, ◌*ℤ◌, pos_part}
use home_metrics.Base.Float.{Float64}
use home_metrics.Base.Time.{Time, is_zero, second}
use home_metrics.Base.Text.{Text}
use home_metrics.Sensor.{Reading, is_none}
use home_metrics.Sensor.Mac.{normalize_mac}
use home_metrics.Store.{or_text}
use home_metrics.Registry.{TargetDevice}
use home_metrics.Decoder.Values.{Values}
use home_metrics.Decoder.Payload.{decode_ble_payload}
use home_metrics.Decoder.Ranges.{Within, IsInRange, decode_ble_payload-IsInRange}
use home_metrics.Proto
use home_metrics.Proto.{Parse}
use home_metrics.Proto.Messages.{Subscription, Stamp, zero_time, unix, parse_batch}

-- 1970 in seconds after the zero `Time`; an instant before that is taken for the zero one.
abbrev unix_epoch : ℤ
unix_epoch = pos 62135596800

unfoldable pub time_of : Stamp → Time
unfolding ◌+ℤ◌ ◌*ℤ◌
time_of zero_time = 0
time_of (unix seconds nanos) = pos_part ((seconds +ℤ unix_epoch) *ℤ pos second +ℤ nanos)

module _ {F : Type 0} where
  -- `empty` of a `bleReading`.
  unfoldable pub has_no_value : Values F → Bool
  has_no_value r =
      is_none r.temperature_c
      && is_none r.humidity_percent
      && is_none r.battery_percent
      && is_none r.rssi
      && is_none r.pressure_hpa
      && is_none r.co2_ppm
      && is_none r.lux
      && is_none r.etvoc
      && is_none r.soil_moisture_percent
      && is_none r.conductivity_us_cm

module _ (fl : Float64) (targets : Text → Option TargetDevice) where
  abbrev signal : Option ℤ → Option fl.F → Option fl.F
  signal none old = old
  signal (some s) old = some (fl.of_int s)

  unfoldable pub reading_of : Time → Text → Subscription → Values fl.F → Reading fl.F
  unfolding time_of
  reading_of now mac m r = record {
    ts = if is_zero (time_of m.ts) then now else time_of m.ts;
    mac = mac;
    temperature_c = r.temperature_c;
    humidity_percent = r.humidity_percent;
    battery_percent = r.battery_percent;
    rssi = signal m.rssi r.rssi;
    pressure_hpa = r.pressure_hpa;
    co2_ppm = r.co2_ppm;
    lux = r.lux;
    etvoc = r.etvoc;
    soil_moisture_percent = r.soil_moisture_percent;
    conductivity_us_cm = r.conductivity_us_cm;
  }

  -- A device without an entry is passed over, and so is a payload without a value.
  abbrev decoded :
      Time → Text → Option TargetDevice → Subscription → List (Reading fl.F) → List (Reading fl.F)
  decoded now mac none m more = more
  decoded now mac (some target) m more =
      let r = decode_ble_payload fl m.payload in
      if has_no_value r then more else reading_of now mac m r ∷ more

  unfoldable pub mac_of : Subscription → Text
  unfolding normalize_mac
  mac_of m = or_text (normalize_mac m.ble_mac) (normalize_mac m.device_id)

  -- The loop over the messages.
  unfoldable pub decode_messages : Time → List Subscription → List (Reading fl.F)
  unfolding mac_of reading_of has_no_value decode_ble_payload
  decode_messages now [] = []
  decode_messages now (m ∷ ms) =
      decoded now (mac_of m) (targets (mac_of m)) m (decode_messages now ms)

  abbrev readings_in : Time → Parse (List Subscription) → Parse (List (Reading fl.F))
  readings_in now (Proto.err e) = Proto.err e
  readings_in now (Proto.ok messages) = Proto.ok (decode_messages now messages)

  unfoldable pub decode_data_batch : Time → List ℕ → Parse (List (Reading fl.F))
  unfolding parse_batch decode_messages
  decode_data_batch now payload = readings_in now (parse_batch payload)

  -- What is promised of a reading.
  abbrev pub IsPlausible : Reading fl.F → Type 0
  IsPlausible r =
      ((target : TargetDevice) × (targets r.mac ≡ some target))
      × Within fl r.temperature_c (negsuc 39) (pos 85)
      × Within fl r.humidity_percent (pos 0) (pos 100)
      × Within fl r.battery_percent (pos 0) (pos 100)
      × Within fl r.pressure_hpa (pos 300) (pos 1100)
      × Within fl r.co2_ppm (pos 0) (pos 10000)
      × Within fl r.lux (pos 0) (pos 65534)
      × Within fl r.etvoc (pos 0) (pos 60000)
      × Within fl r.soil_moisture_percent (pos 0) (pos 100)
      × Within fl r.conductivity_us_cm (pos 0) (pos 10000)

  decoded-IsPlausible :
      (now : Time) (mac : Text) (target : Option TargetDevice) (m : Subscription)
      (more : List (Reading fl.F))
      → targets mac ≡ target
      → All IsPlausible more
      → All IsPlausible (decoded now mac target m more)
  unfolding reading_of IsInRange
  decoded-IsPlausible now mac none m more e h = h
  decoded-IsPlausible now mac (some target) m more e h =
      let p = decode_ble_payload-IsInRange fl m.payload in
      elim (Bool-cases (has_no_value (decode_ble_payload fl m.payload))) [
        | inl empty ↦ rw empty h
        | inr full ↦ rw full (((target, e), p.0, p.1, p.2, p.4, p.5, p.6, p.7, p.8, p.9), h)
      ]

  pub decode_messages-IsPlausible :
      (now : Time) (ms : List Subscription) → All IsPlausible (decode_messages now ms)
  unfolding decode_messages
  decode_messages-IsPlausible now [] = tt
  decode_messages-IsPlausible now (m ∷ ms) =
      decoded-IsPlausible now (mac_of m) (targets (mac_of m)) m (decode_messages now ms) refl
        (decode_messages-IsPlausible now ms)

  readings_in-IsPlausible :
      (now : Time) (parsed : Parse (List Subscription)) (readings : List (Reading fl.F))
      → readings_in now parsed ≡ Proto.ok readings
      → All IsPlausible readings
  readings_in-IsPlausible now (Proto.err x) readings e = cc
  readings_in-IsPlausible now (Proto.ok ms) readings e =
      let same : decode_messages now ms ≡ readings = cc in
      subst (All IsPlausible) same (decode_messages-IsPlausible now ms)

  -- Every reading that is decoded from an MQTT message, whatever its bytes, is of a device of the
  -- registry, and its values other than the signal strength are finite and in their ranges.
  pub decode_data_batch-IsPlausible :
      (now : Time) (payload : List ℕ) (readings : List (Reading fl.F))
      → decode_data_batch now payload ≡ Proto.ok readings
      → All IsPlausible readings
  unfolding decode_data_batch
  decode_data_batch-IsPlausible now payload readings e =
      readings_in-IsPlausible now (parse_batch payload) readings e
