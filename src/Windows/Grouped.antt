-- ===== src/Windows/Grouped.antt =====
-- cmd/hm-cisco-iot-orchestrator-collector/aggregate.go: `add` against a grouping of all readings by
-- sensor and minute. Lists of readings have the newest first.
use home_metrics.Base.{List, [], ◌∷◌, Option, none, some, if◌then◌else◌}
use home_metrics.Base.Text.{Text, eq_text}
use home_metrics.Sensor.{Reading}
use home_metrics.Windows.{
  Samples, Window, Key, eq_key, window_key, new_window, has_key, add, append_ptr,
}

module _ {F : Type 0} where
  -- `c.windows[key]`.
  unfoldable pub find : Key → List (Window F) → Option (Window F)
  find k [] = none
  find k (w ∷ ws) = if has_key k w then some w else find k ws

  abbrev or_new : Key → Option (Window F) → Window F
  or_new k none = new_window k
  or_new k (some w) = w

  module _ (keys : Reading F → Text) where
    -- The windows after readings have arrived, each with the zone of its time, from none.
    unfoldable pub windows_after : List (Text × Reading F) → List (Window F)
    unfolding add
    windows_after [] = []
    windows_after ((z, r) ∷ rs) = add keys z r (windows_after rs)

    -- The readings of a sensor, a minute and a zone.
    unfoldable pub group : Key → List (Text × Reading F) → List (Reading F)
    unfolding window_key
    group k [] = []
    group k ((z, r) ∷ rs) = if eq_key (window_key z r) k then r ∷ group k rs else group k rs

    -- The text of the reading before, empty if there is none.
    abbrev last_key : List (Reading F) → Text
    last_key [] = []
    last_key (r ∷ rs) = keys r

    -- The readings without those that repeat the one before.
    unfoldable pub distinct : List (Reading F) → List (Reading F)
    distinct [] = []
    distinct (r ∷ rs) = if eq_text (keys r) (last_key rs) then distinct rs else r ∷ distinct rs

    -- The values of a metric, the oldest first.
    abbrev pub values_of : (Reading F → Option F) → List (Reading F) → List F
    values_of metric [] = []
    values_of metric (r ∷ rs) = append_ptr (values_of metric rs) (metric r)

    unfoldable pub collected : List (Reading F) → Samples F
    collected rs = record {
      rssi = values_of (λ r. r.rssi) rs;
      temperature_c = values_of (λ r. r.temperature_c) rs;
      humidity_percent = values_of (λ r. r.humidity_percent) rs;
      battery_percent = values_of (λ r. r.battery_percent) rs;
      pressure_hpa = values_of (λ r. r.pressure_hpa) rs;
      co2_ppm = values_of (λ r. r.co2_ppm) rs;
      lux = values_of (λ r. r.lux) rs;
      etvoc = values_of (λ r. r.etvoc) rs;
      soil_moisture_percent = values_of (λ r. r.soil_moisture_percent) rs;
      conductivity_us_cm = values_of (λ r. r.conductivity_us_cm) rs;
    }

    -- The window that a group of readings calls for.
    abbrev window_of : Key → List (Reading F) → Window F
    window_of k rs = record {
      sensor_mac = k.mac;
      window = k.at;
      zone = k.zone;
      samples = collected (distinct rs);
      last_comparable = last_key rs;
    }

    unfoldable pub gathered : Key → List (Reading F) → Option (Window F)
    unfolding distinct collected
    gathered k [] = none
    gathered k (r ∷ rs) = some (window_of k (r ∷ rs))
