-- ===== src/Connect/Registry.antt =====
-- cmd/hm-cisco-iot-orchestrator-collector/config.go and aggregate.go: `loadTargetRegistry` and
-- `ensureDevices`. The file's text, its JSON and what can go wrong with either are outside: `devices`
-- is the list in the file.
use home_metrics.Base.{true, false, ◌≡◌, List, [], Option, ◌||◌, not, if◌then◌else◌, map, arith}
use home_metrics.Base.Text.{Text, codes, trim_space, eq_text, to_lower}
use home_metrics.Sensor.Mac.{normalize_mac}
use home_metrics.Store.{StoreError, SyncFaults, Devices, is_blank, or_text, sync_device}
use home_metrics.Registry
use home_metrics.Registry.{
  TargetDevice, TargetRegistry, LoadResult, ok, source_required, not_owned, Verdict, reject,
  foreign, register, is_enabled, load_loop,
}
use home_metrics.Registry.Loaded.{owned, only_enabled, AreDistinct, load_loop-loaded}

abbrev pub sensor_connect_ingest_source : Text
sensor_connect_ingest_source = codes "cisco_sensor_connect"

-- The switch of `normalizeIngestSource`.
abbrev known_source : Text → Text
known_source source =
    if is_blank source
      || eq_text source (codes "cisco_iot_orchestrator")
      || eq_text source (codes "cisco-iot-orchestrator")
      || eq_text source (codes "cisco_iot")
      || eq_text source (codes "cisco-iot")
      || eq_text source sensor_connect_ingest_source
    then sensor_connect_ingest_source
    else source

unfoldable pub normalize_ingest_source : Text → Text
unfolding to_lower trim_space
normalize_ingest_source source = known_source (map to_lower (trim_space source))

-- The checks of a device whose ingest source has been normalised to `source`.
abbrev check_source : TargetDevice → Text → Verdict
check_source d source =
    if eq_text source (codes "ble") || eq_text source (codes "cisco_spaces")
    then foreign
    else if not (eq_text source sensor_connect_ingest_source)
    then reject (not_owned d.mac source)
    else register (record d {
      label = or_text (trim_space d.label) d.mac;
      location = trim_space d.location;
      ingest_source = source;
      sensor_type_code = trim_space d.sensor_type_code;
      sensor_category = trim_space d.sensor_category;
    })

unfoldable pub judge : TargetDevice → Verdict
unfolding trim_space normalize_ingest_source
judge d =
    if is_blank (trim_space d.ingest_source)
    then reject (source_required d.mac)
    else check_source d (normalize_ingest_source d.ingest_source)

unfoldable pub load_target_registry : List TargetDevice → LoadResult
unfolding judge load_loop
load_target_registry devices = load_loop judge devices (record { all = []; enabled = [] })

-- The label that `syncDevice` takes for a device.
unfoldable pub label_of : Text → Text → Text
unfolding trim_space normalize_mac
label_of mac label =
    if is_blank (trim_space label) || eq_text (normalize_mac (trim_space label)) mac
    then mac
    else trim_space label

unfoldable pub sync_device_of :
    (Text → Option Text) → SyncFaults → TargetDevice → Devices → Devices × Option StoreError
unfolding trim_space label_of normalize_ingest_source sync_device
sync_device_of types faults d devices =
    sync_device faults types
      record {
        mac = d.mac;
        label = label_of d.mac d.label;
        location = or_text (trim_space d.location) (label_of d.mac d.label);
        ingest_source = normalize_ingest_source d.ingest_source;
        ingest_source_explicit = true;
        sensor_type_code = trim_space d.sensor_type_code;
        sensor_category = trim_space d.sensor_category;
        enabled = is_enabled d.enabled;
        preserve_existing_label = false;
        preserve_existing_location = false;
      }
      devices

unfoldable pub ensure_devices :
    (Text → Option Text) → List (SyncFaults × TargetDevice) → Devices → Devices × Option StoreError
unfolding sync_device_of Registry.ensure_devices
ensure_devices types targets devices =
    Registry.ensure_devices (sync_device_of types) targets devices

judge-mac : (d e : TargetDevice) → judge d ≡ register e → e.mac ≡ d.mac
unfolding judge
judge-mac d e h = ground arith

-- A registry that the Sensor Connect collector loads has, in the order of the file, exactly the
-- devices of the file that its checks register, each as they register it; the enabled ones are those
-- of them that are not disabled; and no two devices have the same MAC.
pub load_target_registry-connect :
    (devices : List TargetDevice) (r : TargetRegistry)
    → load_target_registry devices ≡ ok r
    → (r.all ≡ owned judge devices) × (r.enabled ≡ only_enabled r.all) × AreDistinct r.all
unfolding load_target_registry
load_target_registry-connect devices r e = load_loop-loaded judge judge-mac devices r e
