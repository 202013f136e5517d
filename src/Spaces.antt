-- ===== src/Spaces.antt =====
-- cmd/hm-cisco-spaces-collector: main.go's configuration, events and MAC addresses, and writer.go.
pub mod Process
pub mod Uploads
pub mod Stuck
pub mod Stream
pub mod Mac
use home_metrics.Base.{
  ℕ, zero, suc, ◌+◌, ◌*◌, ◌-◌, Bool, true, false, List, [], ◌∷◌, ◌++◌, Option, none, some, ◌==◌,
  ◌&&◌, ◌||◌, not, if◌then◌else◌, length, map,
}
use home_metrics.Base.Int.{ℤ, pos, leb_ℤ, ltb_ℤ}
use home_metrics.Base.Time.{Time, Duration, second, minute}
use home_metrics.Base.Text.{Text, codes, eq_text, to_lower, trim_space, in_range}
use home_metrics.Sensor.{Reading}
use home_metrics.Sensor.Mac.{join_pairs}
use home_metrics.Store.{StoreError, SyncFaults, Devices, is_blank, sync_device}
use home_metrics.Windows.{Outcome, failed}
use home_metrics.Windows.Store.{Database, store_reading}

-- The fields of the configuration that the processor and the stream read.
pub record Config : Type 0 where
  pub sample_window : ℤ
  pub field_freshness : Duration
  pub upload_interval : Duration
  pub reconnect_min_delay : Duration
  pub reconnect_max_delay : Duration
  pub stream_heartbeat : Duration
  pub battery_mode : Text
  pub battery_allowlist : List Text

abbrev raised : Duration → Config → Config
raised lo c = record c {
  reconnect_min_delay = lo;
  reconnect_max_delay = if ltb_ℤ c.reconnect_max_delay lo then lo else c.reconnect_max_delay;
}

-- The corrections of `loadConfig` to what the environment says.
unfoldable pub corrected : Config → Config
corrected c =
    let d = record c {
      sample_window = if ltb_ℤ c.sample_window (pos 1) then pos 5 else c.sample_window;
      stream_heartbeat =
          if leb_ℤ c.stream_heartbeat (pos 0) then pos minute else c.stream_heartbeat;
      battery_mode =
          if eq_text c.battery_mode (codes "all")
            || eq_text c.battery_mode (codes "allowlist")
            || eq_text c.battery_mode (codes "off")
          then c.battery_mode
          else codes "all";
    } in
    raised (if leb_ℤ c.reconnect_min_delay (pos 0) then pos second else c.reconnect_min_delay) d

abbrev pub is_hex_digit : ℕ → Bool
is_hex_digit ch = in_range b'0' b'9' ch || in_range b'a' b'f' ch

unfoldable pub hex_digits : Text → Text
hex_digits [] = []
hex_digits (ch ∷ s) = if is_hex_digit ch then ch ∷ hex_digits s else hex_digits s

-- `normalizeMAC`: all that is not a hexadecimal digit is dropped.
unfoldable pub normalize_mac : Text → Text
unfolding hex_digits to_lower join_pairs
normalize_mac value =
    let raw = hex_digits (map to_lower value) in
    if not (length raw == 12) then [] else join_pairs raw

-- The parts of a text between its commas.
abbrev start_part : ℕ → List Text → List Text
start_part c [] = (c ∷ []) ∷ []
start_part c (p ∷ ps) = (c ∷ p) ∷ ps

abbrev pub split_commas : Text → List Text
split_commas [] = [] ∷ []
split_commas (c ∷ s) = if c == b',' then [] ∷ split_commas s else start_part c (split_commas s)

abbrev normalized_parts : List Text → List Text
normalized_parts [] = []
normalized_parts (p ∷ ps) =
    if is_blank (normalize_mac p)
    then normalized_parts ps
    else normalize_mac p ∷ normalized_parts ps

-- The set as the list of its elements, which may repeat.
unfoldable pub parse_mac_set : Text → List Text
unfolding normalize_mac
parse_mac_set raw = normalized_parts (split_commas raw)

pub record DeviceInfo : Type 0 where
  pub device_id : Text
  pub device_mac_address : Text
  pub label : Text

-- A nil pointer is `none`; the fields that are read nowhere are left out.
pub record Telemetry (F : Type 0) : Type 0 where
  pub device_info : DeviceInfo
  pub temperature : Option F
  pub humidity : Option F
  pub air_pressure : Option F
  pub carbon_emissions : Option F
  pub illuminance : Option (F × Text)
  pub battery : Option F
  pub tvoc : Option F

pub record FirehoseEvent (F : Type 0) : Type 0 where
  pub event_type : Text
  pub record_ts : ℤ
  pub iot_telemetry : Telemetry F

unfoldable pub device_id_conflicts_with_mac : DeviceInfo → Bool
unfolding normalize_mac
device_id_conflicts_with_mac info =
    not (is_blank (normalize_mac info.device_id))
    && not (is_blank (normalize_mac info.device_mac_address))
    && not (eq_text (normalize_mac info.device_id) (normalize_mac info.device_mac_address))

-- A `sensorReading`: its label, and the rest as a reading without the metrics it does not know.
pub record SensorReading (F : Type 0) : Type 0 where
  pub label : Text
  pub reading : Reading F

unfoldable pub valid_device_label : Text → Text → Bool
unfolding trim_space normalize_mac
valid_device_label mac label =
    not (is_blank (trim_space label)) && not (eq_text (normalize_mac (trim_space label)) mac)

abbrev error_of : Outcome StoreError → Option StoreError
error_of (failed e) = some e
error_of _ = none

module _ {F : Type 0} where
  -- No type code is given, so the table of sensor types is not asked.
  unfoldable pub upsert_device :
      SyncFaults → SensorReading F → Devices → Devices × Option StoreError
  unfolding trim_space valid_device_label sync_device
  upsert_device faults r devices =
      let has_label = valid_device_label r.reading.mac (trim_space r.label) in
      sync_device faults (λ code. none)
        record {
          mac = r.reading.mac;
          label = if has_label then trim_space r.label else r.reading.mac;
          location = if has_label then trim_space r.label else [];
          ingest_source = codes "cisco_spaces";
          ingest_source_explicit = true;
          sensor_type_code = [];
          sensor_category = codes "environment";
          enabled = true;
          preserve_existing_label = not has_label;
          preserve_existing_location = true;
        }
        devices

  abbrev and_store :
      SensorReading F
      → Database F
      → Devices × Option StoreError
      → (Devices × Database F) × Option StoreError
  and_store r d (devices, some e) = ((devices, d), some e)
  and_store r d (devices, none) =
      let (d', o) = store_reading d r.reading in ((devices, d'), error_of o)

  unfoldable pub write_reading :
      SyncFaults
      → SensorReading F
      → Devices
      → Database F
      → (Devices × Database F) × Option StoreError
  unfolding upsert_device store_reading
  write_reading faults r devices d = and_store r d (upsert_device faults r devices)
