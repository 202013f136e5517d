-- ===== src/Tests/Stores.antt =====
-- A device with an owner, and two readings of one minute.
use home_metrics.Base.{◌≡◌, refl, true, false, List, [], ◌∷◌, Option, none, some, Bool}
use home_metrics.Base.Int.{ℤ, pos}
use home_metrics.Base.Text.{Text, codes}
use home_metrics.Sensor.{Device, Reading}
use home_metrics.Store.{DeviceRow, Devices, SyncFaults}
use home_metrics.Store.Owners.{owner_of, sync_all, sync_all-owner}
use home_metrics.Store.Minutes.{minutes_after, readings_on, newest_values, minutes_after-newest}

abbrev mac : Text
mac = codes "aa:bb:cc:dd:ee:ff"

abbrev owned : DeviceRow
owned = record {
  label = codes "desk";
  location = codes "room";
  ingest_source = some (codes "ble");
  sensor_type_code = none;
  sensor_category = none;
  enabled = true;
}

abbrev devices : Devices
devices m = some owned

abbrev claim : Device
claim = record {
  mac = mac;
  label = codes "";
  location = codes "";
  ingest_source = codes "spaces";
  ingest_source_explicit = true;
  sensor_type_code = codes "";
  sensor_category = codes "";
  enabled = true;
  preserve_existing_label = false;
  preserve_existing_location = false;
}

abbrev types : Text → Option Text
types code = none

abbrev works : SyncFaults
works = record { lookup = false; write = false }

has_owner : owner_of mac devices ≡ some (codes "ble")
unfolding owner_of
has_owner = refl

sync_all-owner_example :
    owner_of mac (sync_all types ((works, claim) ∷ []) devices) ≡ some (codes "ble")
sync_all-owner_example =
    sync_all-owner types ((works, claim) ∷ []) devices mac (codes "ble") has_owner

abbrev warm : Reading ℤ
warm = record {
  ts = 120_000_000_001;
  mac = mac;
  temperature_c = some (pos 21);
  humidity_percent = none;
  battery_percent = none;
  rssi = none;
  pressure_hpa = none;
  co2_ppm = none;
  lux = none;
  etvoc = none;
  soil_moisture_percent = none;
  conductivity_us_cm = none;
}

abbrev calls : List (Bool × Reading ℤ)
calls = (false, record warm { temperature_c = none; lux = some (pos 5) }) ∷ (false, warm) ∷ []

minutes_after-newest_example :
    minutes_after calls 120_000_000_000 mac ≡ newest_values (readings_on 120_000_000_000 mac calls)
minutes_after-newest_example = minutes_after-newest calls 120_000_000_000 mac
