-- ===== src/Decoder/Values.antt =====
-- cmd/hm-cisco-iot-orchestrator-collector/decoder.go and helpers.go: the measured values of a
-- `bleReading`, merged and kept within their ranges. A nil pointer is `none`.
use home_metrics.Base.{Option, none, some, ◌||◌, not, if◌then◌else◌}
use home_metrics.Base.Int.{ℤ, pos, negsuc}
use home_metrics.Base.Float.{Float64}

pub record Values (F : Type 0) : Type 0 where
  pub temperature_c : Option F
  pub humidity_percent : Option F
  pub battery_percent : Option F
  pub rssi : Option F
  pub pressure_hpa : Option F
  pub co2_ppm : Option F
  pub lux : Option F
  pub etvoc : Option F
  pub soil_moisture_percent : Option F
  pub conductivity_us_cm : Option F

-- `bleReading{}`.
abbrev pub no_values : (F : Type 0) → Values F
no_values F = record {
  temperature_c = none;
  humidity_percent = none;
  battery_percent = none;
  rssi = none;
  pressure_hpa = none;
  co2_ppm = none;
  lux = none;
  etvoc = none;
  soil_moisture_percent = none;
  conductivity_us_cm = none;
}

abbrev pub replaced {ℓ} : {A : Type ℓ} → Option A → Option A → Option A
replaced old none = old
replaced old (some v) = some v

-- `merge` leaves the signal strength of the receiver.
unfoldable pub merge : {F : Type 0} → Values F → Values F → Values F
merge r other = record r {
  temperature_c = replaced r.temperature_c other.temperature_c;
  humidity_percent = replaced r.humidity_percent other.humidity_percent;
  battery_percent = replaced r.battery_percent other.battery_percent;
  pressure_hpa = replaced r.pressure_hpa other.pressure_hpa;
  co2_ppm = replaced r.co2_ppm other.co2_ppm;
  lux = replaced r.lux other.lux;
  etvoc = replaced r.etvoc other.etvoc;
  soil_moisture_percent = replaced r.soil_moisture_percent other.soil_moisture_percent;
  conductivity_us_cm = replaced r.conductivity_us_cm other.conductivity_us_cm;
}

module _ (fl : Float64) where
  unfoldable pub sanitize_range : Option fl.F → ℤ → ℤ → Option fl.F
  sanitize_range none lo hi = none
  sanitize_range (some v) lo hi =
      if not (fl.is_finite v) || fl.lt v (fl.of_int lo) || fl.lt (fl.of_int hi) v
      then none
      else some v

  unfoldable pub sanitize_reading : Values fl.F → Values fl.F
  unfolding sanitize_range
  sanitize_reading r = record {
    temperature_c = sanitize_range r.temperature_c (negsuc 39) (pos 85);
    humidity_percent = sanitize_range r.humidity_percent (pos 0) (pos 100);
    battery_percent = sanitize_range r.battery_percent (pos 0) (pos 100);
    rssi = sanitize_range r.rssi (negsuc 126) (pos 20);
    pressure_hpa = sanitize_range r.pressure_hpa (pos 300) (pos 1100);
    co2_ppm = sanitize_range r.co2_ppm (pos 0) (pos 10000);
    lux = sanitize_range r.lux (pos 0) (pos 65534);
    etvoc = sanitize_range r.etvoc (pos 0) (pos 60000);
    soil_moisture_percent = sanitize_range r.soil_moisture_percent (pos 0) (pos 100);
    conductivity_us_cm = sanitize_range r.conductivity_us_cm (pos 0) (pos 10000);
  }
