-- ===== src/Spaces/Stuck.antt =====
-- cmd/hm-cisco-spaces-collector/processor.go: what the check of the temperature's step does to a
-- temperature that has fallen for good.
use home_metrics.Base.{
  Bool, true, false, Bool-cases, ◌≡◌, refl, ap, ◌∙◌, inl, inr, List, [], ◌∷◌, Option, none, some,
  ◌&&◌, not, if◌then◌else◌, All, arith,
}
use home_metrics.Base.Int.{pos, leb_ℤ, pos_part}
use home_metrics.Base.Float.{Float64}
use home_metrics.Base.Time.{Time}
use home_metrics.Base.Text.{Text, codes, eq_text, eq_text→eq, trim_space}
use home_metrics.Sensor
use home_metrics.Store.{is_blank}
use home_metrics.Spaces.{
  Config, Telemetry, FirehoseEvent, normalize_mac, device_id_conflicts_with_mac,
}
use home_metrics.Spaces.Process.{
  Metric, temperature, humidity, pressure, co2, lux, battery, etvoc, eq_metric, RecentMetric,
  Processor, Processed, unix_milli, valid_temperature_step, temperature_of, extract_values,
  other_values, when, illuminance_of, per_thousand, accept_battery, valid_humidity, add_metric,
  add_value, add_values, upload, process_event, build_reading, too_soon,
}

module _ (fl : Float64) (c : Config) where
  -- The processor after events, in their order.
  unfoldable pub process_all : List (FirehoseEvent fl.F) → Processor fl.F → Processor fl.F
  unfolding process_event
  process_all [] p = p
  process_all (e ∷ es) p = process_all es (process_event fl c e p).0

module _ (fl : Float64) (c : Config) (mac : Text) (last : RecentMetric fl.F) where
  abbrev pub Holds : Processor fl.F → Type 0
  Holds p = p.last_metrics mac temperature ≡ some last

  -- A temperature, if there is one, more than three degrees below the last median.
  abbrev pub IsLow : Option fl.F → Type 0
  IsLow none = Unit {0}
  IsLow (some v) = valid_temperature_step fl (some last) v ≡ false

  -- A value that is not a temperature of the sensor.
  abbrev IsOther : Text → Metric × fl.F → Type 0
  IsOther m x = (eq_text m mac && eq_metric x.0 temperature) ≡ false

  add_value-Holds :
      (m : Text) (ts : Time) (x : Metric × fl.F) (p : Processor fl.F)
      → IsOther m x
      → Holds p
      → Holds (add_value fl c m ts x.0 x.1 p)
  unfolding add_value
  add_value-Holds m ts x p o h = elim (Bool-cases (fl.is_finite x.1)) [
    | inl e ↦ rw (e, o) h
    | inr e ↦ rw e h
  ]

  add_values-Holds :
      (m : Text) (ts : Time) (values : List (Metric × fl.F)) (p : Processor fl.F)
      → All (IsOther m) values
      → Holds p
      → Holds (add_values fl c m ts values p)
  unfolding add_values
  add_values-Holds m ts [] p o h = h
  add_values-Holds m ts (x ∷ values) p o h =
      add_values-Holds m ts values (add_value fl c m ts x.0 x.1 p) o.1
        (add_value-Holds m ts x p o.0 h)

  add_metric-IsOther :
      (m : Text) (name : Metric) (v : Option fl.F) (values : List (Metric × fl.F))
      → (eq_text m mac && eq_metric name temperature) ≡ false
      → All (IsOther m) values
      → All (IsOther m) (add_metric fl name v values)
  add_metric-IsOther m name none values e h = h
  add_metric-IsOther m name (some v) values e h = (e, h)

  and_false : (a : Bool) → (a && false) ≡ false
  and_false a = ground arith

  no_temperature : (v : Option fl.F) → IsLow v → (temperature_of fl (some last) v).0 ≡ none
  unfolding temperature_of
  no_temperature none h = refl
  no_temperature (some v) h = ground arith

  other_values-IsOther :
      (invalid : Bool) (m : Text) (item : Telemetry fl.F)
      → All (IsOther m) (other_values fl c invalid m item)
  unfolding other_values
  other_values-IsOther invalid m item =
      let other = and_false (eq_text m mac) in
      let g = per_thousand fl item.tvoc in
      let f = when fl (λ v. accept_battery c m) item.battery in
      let e = illuminance_of fl item.illuminance in
      let b = when fl (λ v. not (fl.eq v (fl.of_int (pos 0)))) item.air_pressure in
      let a = when fl (λ v. valid_humidity fl v invalid) item.humidity in
      let after_battery = add_metric fl etvoc g [] in
      let after_lux = add_metric fl battery f after_battery in
      let after_co2 = add_metric fl lux e after_lux in
      let after_pressure = add_metric fl co2 item.carbon_emissions after_co2 in
      add_metric-IsOther m humidity a (add_metric fl pressure b after_pressure) other (
        add_metric-IsOther m pressure b after_pressure other (
          add_metric-IsOther m co2 item.carbon_emissions after_co2 other (
            add_metric-IsOther m lux e after_lux other (
              add_metric-IsOther m battery f after_battery other
                (add_metric-IsOther m etvoc g [] other tt)))))

  extract_values-IsOther :
      (m : Text) (item : Telemetry fl.F) (old : Option (RecentMetric fl.F)) (same : Bool)
      → eq_text m mac ≡ same
      → (same ≡ true → (old ≡ some last) × IsLow item.temperature)
      → All (IsOther m) (extract_values fl c old m item)
  unfolding extract_values
  extract_values-IsOther m item old false e h =
      let t = temperature_of fl old item.temperature in
      add_metric-IsOther m temperature t.0 (other_values fl c t.1 m item) (rw e refl)
        (other_values-IsOther t.1 m item)
  extract_values-IsOther m item old true e h =
      let now = h refl in
      rw (now.0, no_temperature item.temperature now.1) (other_values-IsOther _ m item)

  -- Past its values, an event leaves the medians alone.
  upload-last_metrics :
      (m : Text) (ts : Time) (item : Telemetry fl.F) (p : Processor fl.F)
      → (upload fl c m ts item p).0.last_metrics
        ≡ (add_values fl c m ts
            (extract_values fl c (p.last_metrics m temperature) m item)
            p).last_metrics
  unfolding upload
  upload-last_metrics m ts item p =
      let q = add_values fl c m ts (extract_values fl c (p.last_metrics m temperature) m item) p in
      let r = build_reading fl c q m (trim_space item.device_info.label) ts in
      kept_by (too_soon fl c (q.last_uploads m) ts) (Sensor.is_empty r.reading) q
        (λ n. if eq_text m n then some ts else q.last_uploads n) _ _ _
    where
      kept_by :
          (a b : Bool) (q : Processor fl.F) (us : Text → Option Time) (x y z : Processed fl.F)
          → let result : Processor fl.F × Processed fl.F =
              if a then (q, x) else if b then (q, y) else (record q { last_uploads = us }, z) in
            result.0.last_metrics ≡ q.last_metrics
      kept_by true b q us x y z = refl
      kept_by false true q us x y z = refl
      kept_by false false q us x y z = refl

  upload-Holds :
      (m : Text) (ts : Time) (item : Telemetry fl.F) (p : Processor fl.F)
      → (eq_text m mac ≡ true → IsLow item.temperature)
      → Holds p
      → Holds (upload fl c m ts item p).0
  upload-Holds m ts item p low h =
      let values = extract_values fl c (p.last_metrics m temperature) m item in
      let kept =
        add_values-Holds m ts values p
          (extract_values-IsOther m item (p.last_metrics m temperature) (eq_text m mac) refl
            (λ e. (rw (eq_text→eq m mac e) h, low e)))
          h in
      ap (λ (t : Text → Metric → Option (RecentMetric fl.F)). t mac temperature)
        (upload-last_metrics m ts item p)
      ∙ kept

  checked-Holds :
      (a b d e : Bool) (p : Processor fl.F) (w x y z : Processed fl.F)
      (done : Processor fl.F × Processed fl.F)
      → Holds p
      → Holds done.0
      → let result : Processor fl.F × Processed fl.F =
          if a
          then (p, w)
          else if b
          then (p, x)
          else if d
          then (p, y)
          else if e
          then (p, z)
          else done in
        Holds result.0
  checked-Holds true b d e p w x y z done h k = h
  checked-Holds false true d e p w x y z done h k = h
  checked-Holds false false true e p w x y z done h k = h
  checked-Holds false false false true p w x y z done h k = h
  checked-Holds false false false false p w x y z done h k = k

  -- An event of the sensor with a low temperature or none, or an event of another sensor.
  abbrev pub IsLowEvent : FirehoseEvent fl.F → Type 0
  IsLowEvent event =
      eq_text (normalize_mac event.iot_telemetry.device_info.device_mac_address) mac ≡ true
      → IsLow event.iot_telemetry.temperature

  process_event-Holds :
      (event : FirehoseEvent fl.F) (p : Processor fl.F)
      → IsLowEvent event
      → Holds p
      → Holds (process_event fl c event p).0
  unfolding process_event
  process_event-Holds event p low h =
      let item = event.iot_telemetry in
      let m = normalize_mac item.device_info.device_mac_address in
      checked-Holds (not (eq_text event.event_type (codes "IOT_TELEMETRY")))
        (leb_ℤ event.record_ts (pos 0)) (is_blank m) (device_id_conflicts_with_mac item.device_info)
        p _ _ _ _ (upload fl c m (unix_milli (pos_part event.record_ts)) item p) h
        (upload-Holds m (unix_milli (pos_part event.record_ts)) item p low h)

  -- Once a sensor has a median of its temperature, and every later temperature of it is more than
  -- three degrees below that median, the median and its time stay as they are through any number of
  -- events, of this sensor and of others: no later temperature is ever taken in.
  pub process_all-Holds :
      (es : List (FirehoseEvent fl.F)) (p : Processor fl.F)
      → All IsLowEvent es
      → p.last_metrics mac temperature ≡ some last
      → (process_all fl c es p).last_metrics mac temperature ≡ some last
  unfolding process_all
  process_all-Holds [] p low h = h
  process_all-Holds (e ∷ es) p low h =
      process_all-Holds es (process_event fl c e p).0 low.1 (process_event-Holds e p low.0 h)
