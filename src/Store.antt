-- ===== src/Store.antt =====
-- internal/sensorstore/store.go: the registry of devices and the table of readings by the minute. A
-- table is a function from its key; a database call that may fail is a Boolean, true where it fails.
pub mod Owners
pub mod Minutes
use home_metrics.Base.{
  Bool, true, false, List, [], ◌∷◌, Option, none, some, ◌==◌, ◌&&◌, ◌||◌, not, if◌then◌else◌,
}
use home_metrics.Base.Time.{Time, is_zero, truncate_minute}
use home_metrics.Base.Text.{Text, trim_space, eq_text}
use home_metrics.Sensor.{Device, Reading, is_empty}
use home_metrics.Sensor.Mac.{normalize_mac}

pub data StoreError : Type 0 where
  no_mac no_timestamp empty_source unknown_type category_mismatch : StoreError
  ownership_conflict database_error : StoreError

-- A row of `devices`, without its key and its time of change.
pub record DeviceRow : Type 0 where
  pub label : Text
  pub location : Text
  pub ingest_source : Option Text
  pub sensor_type_code : Option Text
  pub sensor_category : Option Text
  pub enabled : Bool

abbrev pub Devices : Type 0
Devices = Text → Option DeviceRow

abbrev pub is_blank : Text → Bool
is_blank [] = true
is_blank (c ∷ s) = false

abbrev pub or_text : Text → Text → Text
or_text [] t = t
or_text (c ∷ s) t = c ∷ s

-- `COALESCE(a, b)`.
abbrev pub coalesce {ℓ} : {A : Type ℓ} → Option A → Option A → Option A
coalesce none b = b
coalesce (some a) b = some a

-- `NULLIF(s, '')`.
abbrev pub null_if_blank : Text → Option Text
null_if_blank [] = none
null_if_blank (c ∷ s) = some (c ∷ s)

-- The first statements of `SyncDevice`: what it does to its copy of the device.
unfoldable pub prepared : Device → Device
unfolding normalize_mac trim_space
prepared d =
    let mac = normalize_mac d.mac in
    let label = or_text (trim_space d.label) mac in
    record d {
      mac = mac;
      label = label;
      location = or_text (trim_space d.location) label;
      ingest_source = trim_space d.ingest_source;
      sensor_type_code = trim_space d.sensor_type_code;
      sensor_category = trim_space d.sensor_category;
    }

abbrev pub source_of : Device → Option Text
source_of d = if d.ingest_source_explicit then some d.ingest_source else none

-- `ingest_source IS NULL OR ingest_source = EXCLUDED.ingest_source`; a comparison with NULL is not
-- true.
abbrev pub may_claim : Option Text → Option Text → Bool
may_claim none source = true
may_claim (some owner) none = false
may_claim (some owner) (some source) = eq_text owner source

-- The row that `syncDeviceSQL` writes, or nothing where its condition fails.
unfoldable pub device_row : Device → Text → Option DeviceRow → Option DeviceRow
device_row d category none = some record {
  label = d.label;
  location = d.location;
  ingest_source = source_of d;
  sensor_type_code = null_if_blank d.sensor_type_code;
  sensor_category = null_if_blank category;
  enabled = d.enabled;
}
device_row d category (some old) =
    if may_claim old.ingest_source (source_of d)
    then some record {
      label = if d.preserve_existing_label then old.label else d.label;
      location = if d.preserve_existing_location then old.location else d.location;
      ingest_source = coalesce old.ingest_source (source_of d);
      sensor_type_code = coalesce (null_if_blank d.sensor_type_code) old.sensor_type_code;
      sensor_category = coalesce (null_if_blank category) old.sensor_category;
      enabled = d.enabled;
    }
    else none

-- The two queries of `SyncDevice`.
pub record SyncFaults : Type 0 where
  pub lookup : Bool
  pub write : Bool

-- The category to write, or the error of the checks; `types` is the table of sensor types.
abbrev pub checked_category : Bool → (Text → Option Text) → Device → Text × Option StoreError
checked_category fault types d =
    if is_blank d.sensor_type_code
    then (d.sensor_category, none)
    else if fault
    then ([], some database_error)
    else elim (types d.sensor_type_code) [
      | none ↦ ([], some unknown_type)
      | some registered ↦
          if is_blank d.sensor_category
          then (registered, none)
          else if eq_text d.sensor_category registered
          then (d.sensor_category, none)
          else ([], some category_mismatch)
    ]

abbrev stored_row : Text → Option DeviceRow → Devices → Devices × Option StoreError
stored_row mac none devices = (devices, some ownership_conflict)
stored_row mac (some row) devices =
    ((λ key. if eq_text mac key then some row else devices key), none)

unfoldable pub sync_prepared :
    SyncFaults → (Text → Option Text) → Device → Devices → Devices × Option StoreError
unfolding device_row
sync_prepared faults types d devices =
    let (category, e) = checked_category faults.lookup types d in
    if is_blank d.mac
    then (devices, some no_mac)
    else if d.ingest_source_explicit && is_blank d.ingest_source
    then (devices, some empty_source)
    else elim e [
      | some x ↦ (devices, some x)
      | none ↦
          if faults.write
          then (devices, some database_error)
          else stored_row d.mac (device_row d category (devices d.mac)) devices
    ]

unfoldable pub sync_device :
    SyncFaults → (Text → Option Text) → Device → Devices → Devices × Option StoreError
unfolding prepared sync_prepared
sync_device faults types d devices = sync_prepared faults types (prepared d) devices
