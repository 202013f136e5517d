-- ===== src/Ble/Ranges/Stored.antt =====
-- cmd/hm-ble-collector/main.go: the ranges of the rows of the table, through whole rounds.
use home_metrics.Base.{
  Bool, true, false, Bool-cases, inl, inr, List, [], ◌∷◌, Option, none, some, if◌then◌else◌,
}
use home_metrics.Base.Int.{pos, negsuc}
use home_metrics.Base.Float.{Float64}
use home_metrics.Base.Time.{Time, truncate_minute, is_zero}
use home_metrics.Base.Text.{Text}
use home_metrics.Sensor
use home_metrics.Sensor.{Reading}
use home_metrics.Sensor.Mac.{normalize_mac}
use home_metrics.Store.{StoreError, is_blank}
use home_metrics.Store.Minutes.{MinuteRow, Minutes, merged_row, upsert_minute, on_row}
use home_metrics.Median.{All?}
use home_metrics.Windows
use home_metrics.Windows.{
  Samples, no_samples, Window, new_window, append_all, absorb, update, has_key, Outcome,
}
use home_metrics.Windows.Flushed.{flush_completed-Keeps}
use home_metrics.Windows.Store.{Database, store_reading}
use home_metrics.Ble.Filter.{OutlierConfig, Histories}
use home_metrics.Ble.Flush.{
  FlushState, filter_window, flush, flush_completed, add_readings, poll_round,
}
use home_metrics.Ble.Ranges.{In, MeansStay, coalesce-All?, filter_metric-All?}
use home_metrics.Ble.Ranges.Samples.{
  ReadingFits, SamplesFit, WindowsFit, add_readings-Fit, medians-Fits,
}

module _ (fl : Float64) where
  abbrev pub RowFits : Option (MinuteRow fl.F) → Type 0
  RowFits none = Unit {0}
  RowFits (some row) =
      All? fl (In fl (negsuc 39) (pos 85)) row.temperature_c
      × All? fl (In fl (pos 0) (pos 100)) row.humidity_percent
      × All? fl (In fl (pos 0) (pos 100)) row.battery_percent
      × All? fl (In fl (negsuc 126) (pos 20)) row.rssi_dbm
      × All? fl (In fl (pos 300) (pos 1100)) row.pressure_hpa
      × All? fl (In fl (pos 0) (pos 10000)) row.co2_ppm
      × All? fl (In fl (pos 0) (pos 65534)) row.lux
      × All? fl (In fl (pos 0) (pos 60000)) row.etvoc
      × All? fl (In fl (pos 0) (pos 100)) row.soil_moisture_percent
      × All? fl (In fl (pos 0) (pos 10000)) row.conductivity_us_cm

  abbrev pub TableFits : Minutes fl.F → Type 0
  TableFits m = (ts : Time) (mac : Text) → RowFits (m ts mac)

  merged_row-Fits :
      (r : Reading fl.F) (old : Option (MinuteRow fl.F))
      → ReadingFits fl r
      → RowFits old
      → RowFits (some (merged_row r old))
  unfolding merged_row
  merged_row-Fits r none p q = p
  merged_row-Fits r (some old) p q = (
    coalesce-All? fl (In fl (negsuc 39) (pos 85)) r.temperature_c old.temperature_c p.0 q.0,
    coalesce-All? fl (In fl (pos 0) (pos 100)) r.humidity_percent old.humidity_percent p.1 q.1,
    coalesce-All? fl (In fl (pos 0) (pos 100)) r.battery_percent old.battery_percent p.2 q.2,
    coalesce-All? fl (In fl (negsuc 126) (pos 20)) r.rssi old.rssi_dbm p.3 q.3,
    coalesce-All? fl (In fl (pos 300) (pos 1100)) r.pressure_hpa old.pressure_hpa p.4 q.4,
    coalesce-All? fl (In fl (pos 0) (pos 10000)) r.co2_ppm old.co2_ppm p.5 q.5,
    coalesce-All? fl (In fl (pos 0) (pos 65534)) r.lux old.lux p.6 q.6,
    coalesce-All? fl (In fl (pos 0) (pos 60000)) r.etvoc old.etvoc p.7 q.7,
    coalesce-All? fl (In fl (pos 0) (pos 100)) r.soil_moisture_percent old.soil_moisture_percent p.8
        q.8,
    coalesce-All? fl (In fl (pos 0) (pos 10000)) r.conductivity_us_cm old.conductivity_us_cm p.9
        q.9,
  )

  picked :
      (a b c d : Bool) (m n : Minutes fl.F) (p q t u v : Bool × Option StoreError)
      → TableFits m
      → TableFits n
      → let result : Minutes fl.F × (Bool × Option StoreError) =
          if a
          then (m, p)
          else if b
          then (m, q)
          else if c
          then (m, t)
          else if d
          then (m, u)
          else (n, v) in
        TableFits result.0
  picked true b c d m n p q t u v h k = h
  picked false true c d m n p q t u v h k = h
  picked false false true d m n p q t u v h k = h
  picked false false false true m n p q t u v h k = h
  picked false false false false m n p q t u v h k = k

  upsert_minute-Fits :
      (fault : Bool) (r : Reading fl.F) (m : Minutes fl.F)
      → ReadingFits fl r
      → TableFits m
      → TableFits (upsert_minute fault r m).0
  unfolding upsert_minute
  upsert_minute-Fits fault r m p h =
      picked (is_blank (normalize_mac r.mac)) (is_zero r.ts) (Sensor.is_empty r) fault m
        (λ ts mac. if on_row r ts mac then some (merged_row r (m ts mac)) else m ts mac) _ _ _ _ _ h
        (λ ts mac. elim (Bool-cases (on_row r ts mac)) [
          | inl e ↦ rw e (merged_row-Fits r (m ts mac) p (h ts mac))
          | inr e ↦ rw e (h ts mac)
        ])

  store_reading-Fits :
      (d : Database fl.F) (r : Reading fl.F)
      → ReadingFits fl r
      → TableFits d.minutes
      → TableFits (store_reading d r).0.minutes
  unfolding store_reading
  store_reading-Fits d r p h = upsert_minute-Fits _ r d.minutes p h

  module _ (c : OutlierConfig fl.F) (means : MeansStay fl) where
    filter_window-Fits :
        (hs : Histories fl.F) (w : Window fl.F)
        → SamplesFit fl w.samples
        → ReadingFits fl (filter_window fl c hs w).1
    unfolding filter_window
    filter_window-Fits hs w h =
        let p = medians-Fits fl means w h in
        (
          filter_metric-All? fl (In fl (negsuc 39) (pos 85)) c _ _ _ _ _ p.0,
          filter_metric-All? fl (In fl (pos 0) (pos 100)) c _ _ _ _ _ p.1,
          filter_metric-All? fl (In fl (pos 0) (pos 100)) c _ _ _ _ _ p.2,
          filter_metric-All? fl (In fl (negsuc 126) (pos 20)) c _ _ _ _ _ p.3,
          filter_metric-All? fl (In fl (pos 300) (pos 1100)) c _ _ _ _ _ p.4,
          filter_metric-All? fl (In fl (pos 0) (pos 10000)) c _ _ _ _ _ p.5,
          p.6,
          filter_metric-All? fl (In fl (pos 0) (pos 60000)) c _ _ _ _ _ p.7,
          tt,
          tt,
        )

    abbrev StateFits : FlushState fl.F → Type 0
    StateFits s = TableFits s.database.minutes

    chosen-Fits :
        (a b : Bool) (x y z : FlushState fl.F) (o p q : Outcome StoreError)
        → StateFits x
        → StateFits y
        → StateFits z
        → let result : FlushState fl.F × Outcome StoreError =
            if a then (x, o) else if b then (y, p) else (z, q) in
          StateFits result.0
    chosen-Fits true b x y z o p q h k l = h
    chosen-Fits false true x y z o p q h k l = k
    chosen-Fits false false x y z o p q h k l = l

    flush-Fits :
        (s : FlushState fl.F) (w : Window fl.F)
        → StateFits s
        → SamplesFit fl w.samples
        → StateFits (flush fl c s w).0
    unfolding flush
    flush-Fits s w h p =
        let (hs, r) = filter_window fl c s.histories w in
        chosen-Fits (Windows.is_empty w.samples) (Sensor.is_empty r) s
          (record { histories = hs; database = s.database })
          (record { histories = hs; database = (store_reading s.database r).0 }) _ _ _ h h
          (store_reading-Fits s.database r (filter_window-Fits s.histories w p) h)

    -- A round of the collector, on the windows and the state that the round before left.
    abbrev pub Fits : List (Window fl.F) × FlushState fl.F → Type 0
    Fits s = WindowsFit fl s.0 × StateFits s.1

    -- The rounds of the main loop, each with its time and the readings of its poll.
    unfoldable pub rounds :
        (fl.F → Text)
        → List (Time × List (Reading fl.F))
        → List (Window fl.F) × FlushState fl.F
        → List (Window fl.F) × FlushState fl.F
    unfolding poll_round
    rounds print [] s = s
    rounds print ((now, readings) ∷ polls) s =
        let swept = (poll_round fl c print now readings s.0 s.1).0 in
        rounds print polls (swept.windows, swept.state)

    poll_round-Fits :
        (print : fl.F → Text) (now : Time) (readings : List (Reading fl.F))
        (s : List (Window fl.F) × FlushState fl.F)
        → Fits s
        → let swept = (poll_round fl c print now readings s.0 s.1).0 in
          Fits (swept.windows, swept.state)
    unfolding poll_round flush_completed
    poll_round-Fits print now readings s h =
        let kept =
          flush_completed-Keeps (flush fl c) StateFits (λ w. SamplesFit fl w.samples) flush-Fits
            (truncate_minute now) (add_readings fl c print readings s.0) s.1 h.1
            (add_readings-Fit fl c print readings s.0 h.0) in
        (kept.1, kept.0)

    -- If every row of the table and every sample of the open windows is in the range of its metric,
    -- this stays so through any rounds of the collector, whatever the polled readings are, whichever
    -- statements fail and however the filter is configured.
    pub rounds-Fits :
        (print : fl.F → Text) (polls : List (Time × List (Reading fl.F)))
        (s : List (Window fl.F) × FlushState fl.F)
        → Fits s
        → Fits (rounds print polls s)
    unfolding rounds
    rounds-Fits print [] s h = h
    rounds-Fits print ((now, readings) ∷ polls) s h =
        rounds-Fits print polls _ (poll_round-Fits print now readings s h)
