-- ===== src/Spaces/Process.antt =====
-- cmd/hm-cisco-spaces-collector/processor.go: the events of the firehose become readings. An entry
-- that a map does not have is none, or the empty window.
use home_metrics.Base.{
  ℕ, ◌+◌, ◌*◌, Bool, true, false, List, [], ◌∷◌, ◌++◌, Option, none, some, ◌==◌, ◌&&◌, ◌||◌, not,
  if◌then◌else◌, length, ltb,
}
use home_metrics.Base.Int.{ℤ, pos, negsuc, leb_ℤ, ltb_ℤ, pos_part}
use home_metrics.Base.Float.{Float64}
use home_metrics.Base.Time.{Time, elapsed, truncate_minute}
use home_metrics.Base.Text.{Text, codes, eq_text, trim_space}
use home_metrics.Sensor
use home_metrics.Sensor.{Reading}
use home_metrics.Store.{is_blank}
use home_metrics.Ble.Filter.{newest}
use home_metrics.Median.{nullable_median}
use home_metrics.Spaces.{
  Config, Telemetry, FirehoseEvent, SensorReading, normalize_mac, device_id_conflicts_with_mac,
}

pub data Metric : Type 0 where
  temperature humidity battery pressure co2 lux etvoc : Metric

abbrev number_of : Metric → ℕ
number_of temperature = 0
number_of humidity = 1
number_of battery = 2
number_of pressure = 3
number_of co2 = 4
number_of lux = 5
number_of etvoc = 6

abbrev pub eq_metric : Metric → Metric → Bool
eq_metric a b = number_of a == number_of b

pub record RecentMetric (F : Type 0) : Type 0 where
  pub ts : Time
  pub value : F

pub record Processor (F : Type 0) : Type 0 where
  pub windows : Text → Metric → List F
  pub last_metrics : Text → Metric → Option (RecentMetric F)
  pub last_uploads : Text → Option Time

abbrev pub new_processor : (F : Type 0) → Processor F
new_processor F = record {
  windows = λ mac name. [];
  last_metrics = λ mac name. none;
  last_uploads = λ mac. none;
}

-- Why an event gives no reading.
pub data Ignored : Type 0 where
  non_iot_telemetry_event missing_record_ts missing_device_mac device_id_mismatch : Ignored
  upload_interval empty_reading no_metric_values : Ignored

pub data Processed (F : Type 0) : Type 0 where
  accepted : SensorReading F → Processed F
  ignored : Ignored → Processed F

-- `time.UnixMilli` of a positive number of milliseconds.
abbrev pub unix_milli : ℕ → Time
unix_milli ms = 62135596800000000000 + ms * 1000000

abbrev is_member : Text → List Text → Bool
is_member mac [] = false
is_member mac (m ∷ ms) = eq_text m mac || is_member mac ms

unfoldable pub accept_battery : Config → Text → Bool
accept_battery c mac =
    if eq_text c.battery_mode (codes "off")
    then false
    else if eq_text c.battery_mode (codes "allowlist")
    then is_member mac c.battery_allowlist
    else true

module _ (fl : Float64) where
  abbrev whole : ℤ → fl.F
  whole = fl.of_int

  unfoldable pub valid_temperature : fl.F → Bool
  valid_temperature v = fl.le (whole (negsuc 19)) v && fl.le v (whole (pos 60))

  -- `validCiscoSpacesTemperatureStep`, of the last median.
  unfoldable pub valid_temperature_step : Option (RecentMetric fl.F) → fl.F → Bool
  valid_temperature_step none v = true
  valid_temperature_step (some last) v = fl.le (fl.sub last.value (whole (pos 3))) v

  unfoldable pub valid_humidity : fl.F → Bool → Bool
  valid_humidity v temperature_invalid =
      if fl.eq v (whole (pos 255))
      then false
      else if temperature_invalid && fl.eq v (whole (pos 99))
      then false
      else fl.le (whole (pos 0)) v && fl.le v (whole (pos 100))

  -- The temperature that counts, and whether there is one that does not.
  unfoldable pub temperature_of : Option (RecentMetric fl.F) → Option fl.F → Option fl.F × Bool
  unfolding valid_temperature valid_temperature_step
  temperature_of last none = (none, false)
  temperature_of last (some v) =
      if fl.eq v (whole (pos 0))
      then (none, false)
      else if valid_temperature v && valid_temperature_step last v
      then (some v, false)
      else (none, true)

  abbrev pub when : (fl.F → Bool) → Option fl.F → Option fl.F
  when test none = none
  when test (some v) = if test v then some v else none

  abbrev pub illuminance_of : Option (fl.F × Text) → Option fl.F
  illuminance_of none = none
  illuminance_of (some (v, unit)) =
      if eq_text unit (codes "LUX") && not (fl.eq v (whole (pos 65535))) then some v else none

  abbrev pub add_metric : Metric → Option fl.F → List (Metric × fl.F) → List (Metric × fl.F)
  add_metric name none values = values
  add_metric name (some v) values = (name, v) ∷ values

  abbrev pub per_thousand : Option fl.F → Option fl.F
  per_thousand none = none
  per_thousand (some v) = some (fl.div v (whole (pos 1000)))

  module _ (c : Config) where
    -- The values other than the temperature.
    unfoldable pub other_values : Bool → Text → Telemetry fl.F → List (Metric × fl.F)
    unfolding valid_humidity accept_battery
    other_values invalid mac item =
        add_metric humidity (when (λ v. valid_humidity v invalid) item.humidity) (
          add_metric pressure (when (λ v. not (fl.eq v (whole (pos 0)))) item.air_pressure) (
            add_metric co2 item.carbon_emissions (
              add_metric lux (illuminance_of item.illuminance) (
                add_metric battery (when (λ v. accept_battery c mac) item.battery)
                  (add_metric etvoc (per_thousand item.tvoc) [])))))

    unfoldable pub extract_values :
        Option (RecentMetric fl.F) → Text → Telemetry fl.F → List (Metric × fl.F)
    unfolding temperature_of other_values
    extract_values last mac item =
        let (t, invalid) = temperature_of last item.temperature in
        add_metric temperature t (other_values invalid mac item)

    abbrev sized : ℕ
    sized = pos_part c.sample_window

    -- The median of a full window.
    abbrev recent_of : Time → List fl.F → Option (RecentMetric fl.F) → Option (RecentMetric fl.F)
    recent_of ts values old =
        if ltb (length values) sized then old else elim (nullable_median fl values) [
          | none ↦ old
          | some m ↦ some record { ts = ts; value = m }
        ]

    unfoldable pub add_value : Text → Time → Metric → fl.F → Processor fl.F → Processor fl.F
    unfolding nullable_median
    add_value mac ts name v p =
        let values = newest sized (p.windows mac name ++ v ∷ []) in
        if not (fl.is_finite v) then p else record p {
          windows = λ m n. if eq_text mac m && eq_metric name n then values else p.windows m n;
          last_metrics = λ m n.
              if eq_text mac m && eq_metric name n
              then recent_of ts values (p.last_metrics m n)
              else p.last_metrics m n;
        }

    unfoldable pub add_values : Text → Time → List (Metric × fl.F) → Processor fl.F → Processor fl.F
    unfolding add_value
    add_values mac ts [] p = p
    add_values mac ts ((name, v) ∷ values) p = add_values mac ts values (add_value mac ts name v p)

    unfoldable pub fresh : Option (RecentMetric fl.F) → Time → Option fl.F
    unfolding elapsed
    fresh none now = none
    fresh (some field) now =
        if ltb_ℤ c.field_freshness (elapsed now field.ts) then none else some field.value

    unfoldable pub build_reading : Processor fl.F → Text → Text → Time → SensorReading fl.F
    unfolding fresh truncate_minute
    build_reading p mac label ts =
        let fields = p.last_metrics mac in
        record {
          label = label;
          reading = record {
            ts = truncate_minute ts;
            mac = mac;
            temperature_c = fresh (fields temperature) ts;
            humidity_percent = fresh (fields humidity) ts;
            battery_percent = fresh (fields battery) ts;
            rssi = none;
            pressure_hpa = fresh (fields pressure) ts;
            co2_ppm = fresh (fields co2) ts;
            lux = fresh (fields lux) ts;
            etvoc = fresh (fields etvoc) ts;
            soil_moisture_percent = none;
            conductivity_us_cm = none;
          };
        }

    -- `ok && ts.Sub(lastUpload) < p.cfg.UploadInterval`.
    unfoldable pub too_soon : Option Time → Time → Bool
    unfolding elapsed
    too_soon none ts = false
    too_soon (some last) ts = ltb_ℤ (elapsed ts last) c.upload_interval

    abbrev reason_of : List (Metric × fl.F) → Ignored
    reason_of [] = no_metric_values
    reason_of (v ∷ vs) = empty_reading

    -- The event past its first checks; `mac` and `ts` are its device and its time.
    unfoldable pub upload :
        Text → Time → Telemetry fl.F → Processor fl.F → Processor fl.F × Processed fl.F
    unfolding extract_values add_values too_soon build_reading trim_space Sensor.is_empty
    upload mac ts item p =
        let values = extract_values (p.last_metrics mac temperature) mac item in
        let q = add_values mac ts values p in
        let r = build_reading q mac (trim_space item.device_info.label) ts in
        if too_soon (q.last_uploads mac) ts
        then (q, ignored upload_interval)
        else if Sensor.is_empty r.reading
        then (q, ignored (reason_of values))
        else (
          record q { last_uploads = λ m. if eq_text mac m then some ts else q.last_uploads m },
          accepted r,
        )

    unfoldable pub process_event :
        FirehoseEvent fl.F → Processor fl.F → Processor fl.F × Processed fl.F
    unfolding upload normalize_mac device_id_conflicts_with_mac
    process_event event p =
        let item = event.iot_telemetry in
        let mac = normalize_mac item.device_info.device_mac_address in
        let done = upload mac (unix_milli (pos_part event.record_ts)) item p in
        if not (eq_text event.event_type (codes "IOT_TELEMETRY"))
        then (p, ignored non_iot_telemetry_event)
        else if leb_ℤ event.record_ts (pos 0)
        then (p, ignored missing_record_ts)
        else if is_blank mac
        then (p, ignored missing_device_mac)
        else if device_id_conflicts_with_mac item.device_info
        then (p, ignored device_id_mismatch)
        else done
