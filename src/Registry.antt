-- ===== src/Registry.antt =====
-- cmd/hm-ble-collector/main.go and cmd/hm-cisco-iot-orchestrator-collector/config.go: the loop of
-- `loadTargetRegistry`, which both programs have, with what they do differently as a parameter; and
-- the registration of the devices that it loads. A map by the MAC is the list of its devices.
pub mod Loaded
use home_metrics.Base.{
  Bool, true, false, List, [], ◌∷◌, ◌++◌, Option, none, some, ◌||◌, if◌then◌else◌,
}
use home_metrics.Base.Text.{Text, trim_space, eq_text}
use home_metrics.Sensor.{Device}
use home_metrics.Sensor.Mac.{normalize_mac}
use home_metrics.Store.{StoreError, SyncFaults, Devices, is_blank, sync_device}

-- A nil pointer to a Boolean is `none`.
pub record TargetDevice : Type 0 where
  pub mac : Text
  pub label : Text
  pub location : Text
  pub ingest_source : Text
  pub sensor_type_code : Text
  pub sensor_category : Text
  pub enabled : Option Bool

pub data RegistryError : Type 0 where
  mac_required : RegistryError
  duplicate_mac : Text → RegistryError
  label_required : Text → RegistryError
  source_required : Text → RegistryError
  not_owned : Text → Text → RegistryError

pub record TargetRegistry : Type 0 where
  pub all : List TargetDevice
  pub enabled : List TargetDevice

pub data LoadResult : Type 0 where
  ok : TargetRegistry → LoadResult
  err : RegistryError → LoadResult

abbrev pub is_enabled : Option Bool → Bool
is_enabled none = true
is_enabled (some b) = b

-- `registry.All[mac]`.
abbrev pub has_mac : Text → List TargetDevice → Bool
has_mac mac [] = false
has_mac mac (d ∷ ds) = eq_text d.mac mac || has_mac mac ds

-- What the checks after those of the MAC say of a device: an error, another collector's, or the
-- device as it is registered.
pub data Verdict : Type 0 where
  reject : RegistryError → Verdict
  foreign : Verdict
  register : TargetDevice → Verdict

abbrev pub registered : TargetDevice → TargetRegistry → TargetRegistry
registered d r = record {
  all = r.all ++ d ∷ [];
  enabled = if is_enabled d.enabled then r.enabled ++ d ∷ [] else r.enabled;
}

-- `device.MAC = NormalizeMAC(device.MAC)`.
abbrev pub with_mac : TargetDevice → TargetDevice
with_mac d = record d { mac = normalize_mac d.mac }

module _ (judge : TargetDevice → Verdict) where
  abbrev pub proceed : Verdict → TargetRegistry → (TargetRegistry → LoadResult) → LoadResult
  proceed (reject e) r rest = err e
  proceed foreign r rest = rest r
  proceed (register d) r rest = rest (registered d r)

  unfoldable pub load_loop : List TargetDevice → TargetRegistry → LoadResult
  unfolding normalize_mac
  load_loop [] r = ok r
  load_loop (d ∷ ds) r =
      let rest = proceed (judge (with_mac d)) r (λ s. load_loop ds s) in
      if is_blank (normalize_mac d.mac)
      then err mac_required
      else if has_mac (normalize_mac d.mac) r.all
      then err (duplicate_mac (normalize_mac d.mac))
      else rest

-- `ensureDevices`, with the call for one device as a parameter: the calls end with the first error.
module _ (sync : SyncFaults → TargetDevice → Devices → Devices × Option StoreError) where
  abbrev unless_failed :
      Devices × Option StoreError
      → (Devices → Devices × Option StoreError)
      → Devices × Option StoreError
  unless_failed (devices, some e) rest = (devices, some e)
  unless_failed (devices, none) rest = rest devices

  unfoldable pub ensure_devices :
      List (SyncFaults × TargetDevice) → Devices → Devices × Option StoreError
  ensure_devices [] devices = (devices, none)
  ensure_devices ((faults, d) ∷ ds) devices =
      unless_failed (sync faults d devices) (λ s. ensure_devices ds s)
