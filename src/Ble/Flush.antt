-- ===== src/Ble/Flush.antt =====
-- cmd/hm-ble-collector/main.go: `flush` with its filters, and the loops over the windows.
pub mod Retry
use home_metrics.Base.{
  ℕ, zero, suc, Bool, true, false, List, [], ◌∷◌, Option, none, some, ◌&&◌, if◌then◌else◌,
}
use home_metrics.Base.Float.{Float64}
use home_metrics.Base.Time.{Time, truncate_minute}
use home_metrics.Base.Text.{Text, codes}
use home_metrics.Sensor
use home_metrics.Sensor.{Reading}
use home_metrics.Store.{StoreError}
use home_metrics.Windows
use home_metrics.Windows.{Window, Outcome, wrote, nothing, failed, Swept}
use home_metrics.Windows.Store.{Database, medians, store_reading, flushed}
use home_metrics.Ble
use home_metrics.Ble.Filter.{OutlierConfig, Histories, filter_metric}

-- What a flush changes: the histories of the filter, and the database.
pub record FlushState (F : Type 0) : Type 0 where
  pub histories : Histories F
  pub database : Database F

-- What is reported to the table of collectors after a round.
pub data Report : Type 0 where
  success data_success : Report
  failure : List StoreError → Report

abbrev report_of : List StoreError → ℕ → Report
report_of (e ∷ es) flushed = failure (e ∷ es)
report_of [] zero = success
report_of [] (suc n) = data_success

module _ (fl : Float64) (c : OutlierConfig fl.F) where
  -- The readings of a window after the filters, which run in the order of `flush`; `lux` has none.
  unfoldable pub filter_window : Histories fl.F → Window fl.F → Histories fl.F × Reading fl.F
  unfolding filter_metric medians
  filter_window hs w =
      let r = medians fl w in
      let mac = w.sensor_mac in
      let (hs1, t) = filter_metric fl c hs mac (codes "temperature_c") w.window r.temperature_c in
      let (hs2, h) =
        filter_metric fl c hs1 mac (codes "humidity_percent") w.window r.humidity_percent in
      let (hs3, b) =
        filter_metric fl c hs2 mac (codes "battery_percent") w.window r.battery_percent in
      let (hs4, s) = filter_metric fl c hs3 mac (codes "rssi_dbm") w.window r.rssi in
      let (hs5, p) = filter_metric fl c hs4 mac (codes "pressure_hpa") w.window r.pressure_hpa in
      let (hs6, g) = filter_metric fl c hs5 mac (codes "co2_ppm") w.window r.co2_ppm in
      let (hs7, e) = filter_metric fl c hs6 mac (codes "etvoc") w.window r.etvoc in
      (
        hs7,
        record r {
          temperature_c = t;
          humidity_percent = h;
          battery_percent = b;
          rssi = s;
          pressure_hpa = p;
          co2_ppm = g;
          etvoc = e;
          soil_moisture_percent = none;
          conductivity_us_cm = none;
        },
      )

  -- The histories have changed also where nothing is written or the statement fails.
  unfoldable pub flush : FlushState fl.F → Window fl.F → FlushState fl.F × Outcome StoreError
  unfolding filter_window store_reading Windows.is_empty Sensor.is_empty
  flush s w =
      let (hs, r) = filter_window s.histories w in
      let (d, o) = store_reading s.database r in
      if Windows.is_empty w.samples
      then (s, nothing)
      else if Sensor.is_empty r
      then (record { histories = hs; database = s.database }, nothing)
      else (record { histories = hs; database = d }, flushed fl o)

  unfoldable pub flush_completed :
      Time → List (Window fl.F) → FlushState fl.F → Swept (FlushState fl.F) fl.F StoreError
  unfolding flush Windows.flush_completed
  flush_completed current ws s = Windows.flush_completed flush current ws s

  -- `ensureDevices` and the polling have no part in a round: `readings` is what `pollReadings` returned
  -- at `now`.
  unfoldable pub add_readings :
      (fl.F → Text) → List (Reading fl.F) → List (Window fl.F) → List (Window fl.F)
  unfolding Ble.add
  add_readings print [] ws = ws
  add_readings print (r ∷ rs) ws = add_readings print rs (Ble.add fl print r ws)

  unfoldable pub poll_round :
      (fl.F → Text)
      → Time
      → List (Reading fl.F)
      → List (Window fl.F)
      → FlushState fl.F
      → Swept (FlushState fl.F) fl.F StoreError × Report
  unfolding add_readings flush_completed truncate_minute
  poll_round print now readings ws s =
      let swept = flush_completed (truncate_minute now) (add_readings print readings ws) s in
      (swept, report_of swept.errors swept.flushed)

  unfoldable pub flush_all :
      List (Window fl.F) → FlushState fl.F → Swept (FlushState fl.F) fl.F StoreError
  unfolding flush Windows.flush_all
  flush_all ws s = Windows.flush_all flush ws s
