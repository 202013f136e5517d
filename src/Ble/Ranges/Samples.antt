-- ===== src/Ble/Ranges/Samples.antt =====
-- cmd/hm-ble-collector/main.go: the ranges of the samples of the windows and of their medians.
use home_metrics.Base.{Bool-cases, inl, inr, refl, List, [], ◌∷◌, All}
use home_metrics.Base.Int.{pos, negsuc}
use home_metrics.Base.Float.{Float64}
use home_metrics.Base.Text.{Text, eq_text}
use home_metrics.Sensor.{Reading}
use home_metrics.Median.{nullable_median-All, All?}
use home_metrics.Windows
use home_metrics.Windows.{
  Samples, no_samples, Window, Key, new_window, append_all, absorb, update, has_key, Outcome,
}
use home_metrics.Windows.Store.{medians}
use home_metrics.Ble
use home_metrics.Ble.Filter.{OutlierConfig}
use home_metrics.Ble.Flush.{add_readings}
use home_metrics.Ble.Ranges.{In, MeansStay, sanitize_range-In, append_ptr-All}

module _ (fl : Float64) where
  -- The plausible range of each metric.
  abbrev pub ReadingFits : Reading fl.F → Type 0
  ReadingFits r =
      All? fl (In fl (negsuc 39) (pos 85)) r.temperature_c
      × All? fl (In fl (pos 0) (pos 100)) r.humidity_percent
      × All? fl (In fl (pos 0) (pos 100)) r.battery_percent
      × All? fl (In fl (negsuc 126) (pos 20)) r.rssi
      × All? fl (In fl (pos 300) (pos 1100)) r.pressure_hpa
      × All? fl (In fl (pos 0) (pos 10000)) r.co2_ppm
      × All? fl (In fl (pos 0) (pos 65534)) r.lux
      × All? fl (In fl (pos 0) (pos 60000)) r.etvoc
      × All? fl (In fl (pos 0) (pos 100)) r.soil_moisture_percent
      × All? fl (In fl (pos 0) (pos 10000)) r.conductivity_us_cm

  abbrev pub SamplesFit : Samples fl.F → Type 0
  SamplesFit s =
      All (In fl (negsuc 39) (pos 85)) s.temperature_c
      × All (In fl (pos 0) (pos 100)) s.humidity_percent
      × All (In fl (pos 0) (pos 100)) s.battery_percent
      × All (In fl (negsuc 126) (pos 20)) s.rssi
      × All (In fl (pos 300) (pos 1100)) s.pressure_hpa
      × All (In fl (pos 0) (pos 10000)) s.co2_ppm
      × All (In fl (pos 0) (pos 65534)) s.lux
      × All (In fl (pos 0) (pos 60000)) s.etvoc
      × All (In fl (pos 0) (pos 100)) s.soil_moisture_percent
      × All (In fl (pos 0) (pos 10000)) s.conductivity_us_cm

  abbrev pub WindowsFit : List (Window fl.F) → Type 0
  WindowsFit ws = All (λ w. SamplesFit w.samples) ws

  sanitize_reading-Fits : (r : Reading fl.F) → ReadingFits (Ble.sanitize_reading fl r)
  unfolding Ble.sanitize_reading
  sanitize_reading-Fits r = (
    sanitize_range-In fl r.temperature_c (negsuc 39) (pos 85),
    sanitize_range-In fl r.humidity_percent (pos 0) (pos 100),
    sanitize_range-In fl r.battery_percent (pos 0) (pos 100),
    sanitize_range-In fl r.rssi (negsuc 126) (pos 20),
    sanitize_range-In fl r.pressure_hpa (pos 300) (pos 1100),
    sanitize_range-In fl r.co2_ppm (pos 0) (pos 10000),
    sanitize_range-In fl r.lux (pos 0) (pos 65534),
    sanitize_range-In fl r.etvoc (pos 0) (pos 60000),
    tt,
    tt,
  )

  append_all-Fit :
      (s : Samples fl.F) (r : Reading fl.F)
      → SamplesFit s
      → ReadingFits r
      → SamplesFit (append_all s r)
  unfolding append_all
  append_all-Fit s r h p = (
    append_ptr-All fl (In fl (negsuc 39) (pos 85)) s.temperature_c r.temperature_c h.0 p.0,
    append_ptr-All fl (In fl (pos 0) (pos 100)) s.humidity_percent r.humidity_percent h.1 p.1,
    append_ptr-All fl (In fl (pos 0) (pos 100)) s.battery_percent r.battery_percent h.2 p.2,
    append_ptr-All fl (In fl (negsuc 126) (pos 20)) s.rssi r.rssi h.3 p.3,
    append_ptr-All fl (In fl (pos 300) (pos 1100)) s.pressure_hpa r.pressure_hpa h.4 p.4,
    append_ptr-All fl (In fl (pos 0) (pos 10000)) s.co2_ppm r.co2_ppm h.5 p.5,
    append_ptr-All fl (In fl (pos 0) (pos 65534)) s.lux r.lux h.6 p.6,
    append_ptr-All fl (In fl (pos 0) (pos 60000)) s.etvoc r.etvoc h.7 p.7,
    append_ptr-All fl (In fl (pos 0) (pos 100)) s.soil_moisture_percent r.soil_moisture_percent h.8
        p.8,
    append_ptr-All fl (In fl (pos 0) (pos 10000)) s.conductivity_us_cm r.conductivity_us_cm h.9 p.9,
  )

  absorb-Fit :
      (key : Text) (r : Reading fl.F) (w : Window fl.F)
      → SamplesFit w.samples
      → ReadingFits r
      → SamplesFit (absorb key r w).samples
  unfolding absorb
  absorb-Fit key r w h p = elim (Bool-cases (eq_text key w.last_comparable)) [
    | inl e ↦ rw e h
    | inr e ↦ rw e (append_all-Fit w.samples r h p)
  ]

  update-Fit :
      (key : Text) (k : Key) (r : Reading fl.F) (ws : List (Window fl.F))
      → WindowsFit ws
      → ReadingFits r
      → WindowsFit (update key k r ws)
  update-Fit key k r [] h p =
      (absorb-Fit key r (new_window k) (tt, tt, tt, tt, tt, tt, tt, tt, tt, tt) p, tt)
  update-Fit key k r (w ∷ ws) h p = elim (Bool-cases (has_key k w)) [
    | inl e ↦ rw e (absorb-Fit key r w h.0 p, h.1)
    | inr e ↦ rw e (h.0, update-Fit key k r ws h.1 p)
  ]

  -- Whatever the readings are, `add` sanitises them.
  pub add_readings-Fit :
      (c : OutlierConfig fl.F) (print : fl.F → Text) (rs : List (Reading fl.F))
      (ws : List (Window fl.F))
      → WindowsFit ws
      → WindowsFit (add_readings fl c print rs ws)
  unfolding add_readings
  add_readings-Fit c print [] ws h = h
  add_readings-Fit c print (r ∷ rs) ws h = add_readings-Fit c print rs (Ble.add fl print r ws) (
      unfold Ble.add Windows.add in
      update-Fit (Ble.reading_key fl print (Ble.sanitize_reading fl r)) _
        (Ble.sanitize_reading fl r) ws h (sanitize_reading-Fits r))

  pub medians-Fits :
      (means : MeansStay fl) (w : Window fl.F) → SamplesFit w.samples → ReadingFits (medians fl w)
  unfolding medians
  medians-Fits means w h = (
    nullable_median-All fl (In fl (negsuc 39) (pos 85)) w.samples.temperature_c
        (λ a b. means (negsuc 39) (pos 85) a b refl refl) h.0,
    nullable_median-All fl (In fl (pos 0) (pos 100)) w.samples.humidity_percent
        (λ a b. means (pos 0) (pos 100) a b refl refl) h.1,
    nullable_median-All fl (In fl (pos 0) (pos 100)) w.samples.battery_percent
        (λ a b. means (pos 0) (pos 100) a b refl refl) h.2,
    nullable_median-All fl (In fl (negsuc 126) (pos 20)) w.samples.rssi
        (λ a b. means (negsuc 126) (pos 20) a b refl refl) h.3,
    nullable_median-All fl (In fl (pos 300) (pos 1100)) w.samples.pressure_hpa
        (λ a b. means (pos 300) (pos 1100) a b refl refl) h.4,
    nullable_median-All fl (In fl (pos 0) (pos 10000)) w.samples.co2_ppm
        (λ a b. means (pos 0) (pos 10000) a b refl refl) h.5,
    nullable_median-All fl (In fl (pos 0) (pos 65534)) w.samples.lux
        (λ a b. means (pos 0) (pos 65534) a b refl refl) h.6,
    nullable_median-All fl (In fl (pos 0) (pos 60000)) w.samples.etvoc
        (λ a b. means (pos 0) (pos 60000) a b refl refl) h.7,
    nullable_median-All fl (In fl (pos 0) (pos 100)) w.samples.soil_moisture_percent
        (λ a b. means (pos 0) (pos 100) a b refl refl) h.8,
    nullable_median-All fl (In fl (pos 0) (pos 10000)) w.samples.conductivity_us_cm
        (λ a b. means (pos 0) (pos 10000) a b refl refl) h.9,
  )
