-- ===== src/Windows/Store.antt =====
-- cmd/hm-cisco-iot-orchestrator-collector/aggregate.go: `flush`, `upsertSensorMinuteReading` and
-- `backfillSensorMinuteReadings`, on the table of readings by the minute.
use home_metrics.Base.{
  ℕ, suc, Bool, true, false, List, [], ◌∷◌, Option, none, some, ◌||◌, if◌then◌else◌,
}
use home_metrics.Base.Float.{Float64}
use home_metrics.Base.Time.{is_zero}
use home_metrics.Base.Text.{trim_space}
use home_metrics.Sensor
use home_metrics.Sensor.{Reading}
use home_metrics.Store.{StoreError, no_mac, no_timestamp, is_blank}
use home_metrics.Store.Minutes.{Minutes, upsert_minute}
use home_metrics.Median.{nullable_median}
use home_metrics.Windows.{Window, is_empty, Outcome, wrote, nothing, failed}

-- The table, and which of the statements to come fail; past the end of the list none does.
pub record Database (F : Type 0) : Type 0 where
  pub minutes : Minutes F
  pub faults : List Bool

abbrev next_fault : List Bool → Bool
next_fault [] = false
next_fault (b ∷ bs) = b

abbrev later_faults : List Bool → List Bool
later_faults [] = []
later_faults (b ∷ bs) = bs

-- Whether a row was written, or why not.
abbrev pub outcome_of : Bool × Option StoreError → Outcome StoreError
outcome_of (b, some e) = failed e
outcome_of (true, none) = wrote
outcome_of (false, none) = nothing

module _ {F : Type 0} where
  -- A call of `sensorstore.UpsertMinute`.
  unfoldable pub store_reading : Database F → Reading F → Database F × Outcome StoreError
  unfolding upsert_minute
  store_reading d r =
      let (minutes, result) = upsert_minute (next_fault d.faults) r d.minutes in
      (record { minutes = minutes; faults = later_faults d.faults }, outcome_of result)

  -- `no_db` where the collector has no database.
  unfoldable pub upsert_sensor_minute_reading :
      Bool → Database F → Reading F → Database F × Outcome StoreError
  unfolding store_reading trim_space
  upsert_sensor_minute_reading no_db d r =
      if no_db || Sensor.is_empty r
      then (d, nothing)
      else if is_blank (trim_space r.mac)
      then (d, failed no_mac)
      else if is_zero r.ts
      then (d, failed no_timestamp)
      else store_reading d r

  -- What a turn of `backfillSensorMinuteReadings` makes of what the turns after it return.
  abbrev pub counted :
      ℕ
      → Outcome StoreError
      → Database F
      → (ℕ → Database F × ℕ × Option StoreError)
      → Database F × ℕ × Option StoreError
  counted inserted wrote d rest = rest (suc inserted)
  counted inserted nothing d rest = rest inserted
  counted inserted (failed e) d rest = (d, inserted, some e)

  unfoldable pub backfill_loop :
      Bool → ℕ → List (Reading F) → Database F → Database F × ℕ × Option StoreError
  unfolding upsert_sensor_minute_reading
  backfill_loop no_db inserted [] d = (d, inserted, none)
  backfill_loop no_db inserted (r ∷ rs) d =
      let (d', o) = upsert_sensor_minute_reading no_db d r in
      counted inserted o d' (λ n. backfill_loop no_db n rs d')

  unfoldable pub backfill_sensor_minute_readings :
      Bool → List (Reading F) → Database F → Database F × ℕ × Option StoreError
  unfolding backfill_loop
  backfill_sensor_minute_readings no_db rs d = backfill_loop no_db 0 rs d

module _ (fl : Float64) where
  -- The reading that a window is flushed as.
  unfoldable pub medians : Window fl.F → Reading fl.F
  unfolding nullable_median
  medians w = record {
    ts = w.window;
    mac = w.sensor_mac;
    temperature_c = nullable_median fl w.samples.temperature_c;
    humidity_percent = nullable_median fl w.samples.humidity_percent;
    battery_percent = nullable_median fl w.samples.battery_percent;
    rssi = nullable_median fl w.samples.rssi;
    pressure_hpa = nullable_median fl w.samples.pressure_hpa;
    co2_ppm = nullable_median fl w.samples.co2_ppm;
    lux = nullable_median fl w.samples.lux;
    etvoc = nullable_median fl w.samples.etvoc;
    soil_moisture_percent = nullable_median fl w.samples.soil_moisture_percent;
    conductivity_us_cm = nullable_median fl w.samples.conductivity_us_cm;
  }

  -- The outcome of the upsert is not looked at unless it is an error.
  abbrev pub flushed : Outcome StoreError → Outcome StoreError
  flushed (failed e) = failed e
  flushed _ = wrote

  unfoldable pub flush : Bool → Database fl.F → Window fl.F → Database fl.F × Outcome StoreError
  unfolding medians upsert_sensor_minute_reading is_empty
  flush no_db d w =
      let (d', o) = upsert_sensor_minute_reading no_db d (medians w) in
      if no_db || is_empty w.samples then (d, nothing) else (d', flushed o)
