-- ===== src/Sensor.antt =====
-- internal/sensor: the metric table, the reading record and the normal form of a MAC address.
pub mod Mac
use Prim.Native.String.{String}
use home_metrics.Base.{ℕ, Bool, true, false, ◌&&◌, List, [], ◌∷◌, Option, none, some, map}
use home_metrics.Base.Time.{Time}
use home_metrics.Base.Text.{Text}

pub record Metric : Type 0 where
  pub key : String
  pub column : String
  pub display_name : String
  pub unit : String

abbrev metric : String → String → String → Metric
metric k n u = record { key = k; column = k; display_name = n; unit = u }

abbrev pub metrics : List Metric
metrics =
    metric "temperature_c" "Temperature" "C"
    ∷ metric "humidity_percent" "Humidity" "%RH"
    ∷ metric "battery_percent" "Battery" "%"
    ∷ metric "rssi_dbm" "RSSI" "dBm"
    ∷ metric "pressure_hpa" "Pressure" "hPa"
    ∷ metric "co2_ppm" "CO2" "ppm"
    ∷ metric "lux" "Lux" "lux"
    ∷ metric "etvoc" "eTVOC" ""
    ∷ metric "soil_moisture_percent" "Soil moisture" "%"
    ∷ metric "conductivity_us_cm" "Conductivity" "uS/cm"
    ∷ []

-- The map from keys to columns, as the list of its entries.
unfoldable pub columns : List (String × String)
columns = map (λ (m : Metric). (m.key, m.column)) metrics

pub record Device : Type 0 where
  pub mac : Text
  pub label : Text
  pub location : Text
  pub ingest_source : Text
  pub ingest_source_explicit : Bool
  pub sensor_type_code : Text
  pub sensor_category : Text
  pub enabled : Bool
  pub preserve_existing_label : Bool
  pub preserve_existing_location : Bool

-- A nil pointer is `none`.
pub record Reading (F : Type 0) : Type 0 where
  pub ts : Time
  pub mac : Text
  pub temperature_c : Option F
  pub humidity_percent : Option F
  pub battery_percent : Option F
  pub rssi : Option F
  pub pressure_hpa : Option F
  pub co2_ppm : Option F
  pub lux : Option F
  pub etvoc : Option F
  pub soil_moisture_percent : Option F
  pub conductivity_us_cm : Option F

abbrev pub is_none {ℓ} : {A : Type ℓ} → Option A → Bool
is_none none = true
is_none (some a) = false

unfoldable pub is_empty : {F : Type 0} → Reading F → Bool
is_empty r =
    is_none r.temperature_c
    && is_none r.humidity_percent
    && is_none r.battery_percent
    && is_none r.rssi
    && is_none r.pressure_hpa
    && is_none r.co2_ppm
    && is_none r.lux
    && is_none r.etvoc
    && is_none r.soil_moisture_percent
    && is_none r.conductivity_us_cm
