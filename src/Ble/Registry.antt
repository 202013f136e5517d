-- ===== src/Ble/Registry.antt =====
-- cmd/hm-ble-collector/main.go: `loadTargetRegistry` and `ensureDevices`. The file's text, its JSON and
-- what can go wrong with either are outside: `devices` is the list in the file.
use home_metrics.Base.{true, false, ◌≡◌, List, [], Option, ◌||◌, not, if◌then◌else◌, arith}
use home_metrics.Base.Text.{Text, codes, trim_space, eq_text}
use home_metrics.Store.{StoreError, SyncFaults, Devices, is_blank, or_text, sync_device}
use home_metrics.Registry
use home_metrics.Registry.{
  TargetDevice, TargetRegistry, LoadResult, ok, RegistryError, label_required, source_required,
  not_owned, Verdict, reject, foreign, register, is_enabled, load_loop,
}
use home_metrics.Registry.Loaded.{owned, only_enabled, AreDistinct, load_loop-loaded}

abbrev trimmed : TargetDevice → TargetDevice
trimmed d = record d {
  label = trim_space d.label;
  location = trim_space d.location;
  ingest_source = trim_space d.ingest_source;
  sensor_type_code = trim_space d.sensor_type_code;
  sensor_category = trim_space d.sensor_category;
}

abbrev check : TargetDevice → Verdict
check d =
    if is_blank d.label
    then reject (label_required d.mac)
    else if is_blank d.ingest_source
    then reject (source_required d.mac)
    else if eq_text d.ingest_source (codes "cisco_sensor_connect")
        || eq_text d.ingest_source (codes "cisco_spaces")
    then foreign
    else if not (eq_text d.ingest_source (codes "ble"))
    then reject (not_owned d.mac d.ingest_source)
    else register (record d { location = or_text d.location d.label })

unfoldable pub judge : TargetDevice → Verdict
unfolding trim_space
judge d = check (trimmed d)

unfoldable pub load_target_registry : List TargetDevice → LoadResult
unfolding judge load_loop
load_target_registry devices = load_loop judge devices (record { all = []; enabled = [] })

-- One turn of `ensureDevices`.
unfoldable pub sync_target :
    (Text → Option Text) → SyncFaults → TargetDevice → Devices → Devices × Option StoreError
unfolding trim_space sync_device
sync_target types faults d devices =
    sync_device faults types
      record {
        mac = d.mac;
        label = d.label;
        location = d.location;
        ingest_source = trim_space d.ingest_source;
        ingest_source_explicit = true;
        sensor_type_code = trim_space d.sensor_type_code;
        sensor_category = or_text (trim_space d.sensor_category) (codes "environment");
        enabled = is_enabled d.enabled;
        preserve_existing_label = false;
        preserve_existing_location = false;
      }
      devices

unfoldable pub ensure_devices :
    (Text → Option Text) → List (SyncFaults × TargetDevice) → Devices → Devices × Option StoreError
unfolding sync_target Registry.ensure_devices
ensure_devices types targets devices = Registry.ensure_devices (sync_target types) targets devices

judge-mac : (d e : TargetDevice) → judge d ≡ register e → e.mac ≡ d.mac
unfolding judge
judge-mac d e h = ground arith

-- A registry that the BLE collector loads has, in the order of the file, exactly the devices of the
-- file that its checks register, each as they register it; the enabled ones are those
-- of them that are not disabled; and no two devices have the same MAC.
pub load_target_registry-loaded :
    (devices : List TargetDevice) (r : TargetRegistry)
    → load_target_registry devices ≡ ok r
    → (r.all ≡ owned judge devices) × (r.enabled ≡ only_enabled r.all) × AreDistinct r.all
unfolding load_target_registry
load_target_registry-loaded devices r e = load_loop-loaded judge judge-mac devices r e
