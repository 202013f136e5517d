-- ===== src/Store/Minutes.antt =====
-- internal/sensorstore/store.go: `UpsertMinute` merges the readings of a minute.
use home_metrics.Base.{
  Bool, true, false, Bool-cases, ◌≡◌, refl, ◌∙◌, inl, inr, List, [], ◌∷◌, Option, none, some, ◌&&◌,
  ◌==◌, not, if◌then◌else◌,
}
use home_metrics.Base.Time.{Time, is_zero, truncate_minute}
use home_metrics.Base.Text.{Text, eq_text}
use home_metrics.Sensor.{Reading, is_empty}
use home_metrics.Sensor.Mac.{normalize_mac}
use home_metrics.Store.{StoreError, no_mac, no_timestamp, database_error, coalesce, is_blank}

-- A row of `sensor_minute`, without its key and its time of insertion.
pub record MinuteRow (F : Type 0) : Type 0 where
  pub temperature_c : Option F
  pub humidity_percent : Option F
  pub battery_percent : Option F
  pub rssi_dbm : Option F
  pub pressure_hpa : Option F
  pub co2_ppm : Option F
  pub lux : Option F
  pub etvoc : Option F
  pub soil_moisture_percent : Option F
  pub conductivity_us_cm : Option F

abbrev pub Minutes : Type 0 → Type 0
Minutes F = Time → Text → Option (MinuteRow F)

-- The row that `UpsertMinuteSQL` writes.
unfoldable pub merged_row : {F : Type 0} → Reading F → Option (MinuteRow F) → MinuteRow F
merged_row r none = record {
  temperature_c = r.temperature_c;
  humidity_percent = r.humidity_percent;
  battery_percent = r.battery_percent;
  rssi_dbm = r.rssi;
  pressure_hpa = r.pressure_hpa;
  co2_ppm = r.co2_ppm;
  lux = r.lux;
  etvoc = r.etvoc;
  soil_moisture_percent = r.soil_moisture_percent;
  conductivity_us_cm = r.conductivity_us_cm;
}
merged_row r (some old) = record {
  temperature_c = coalesce r.temperature_c old.temperature_c;
  humidity_percent = coalesce r.humidity_percent old.humidity_percent;
  battery_percent = coalesce r.battery_percent old.battery_percent;
  rssi_dbm = coalesce r.rssi old.rssi_dbm;
  pressure_hpa = coalesce r.pressure_hpa old.pressure_hpa;
  co2_ppm = coalesce r.co2_ppm old.co2_ppm;
  lux = coalesce r.lux old.lux;
  etvoc = coalesce r.etvoc old.etvoc;
  soil_moisture_percent = coalesce r.soil_moisture_percent old.soil_moisture_percent;
  conductivity_us_cm = coalesce r.conductivity_us_cm old.conductivity_us_cm;
}

-- Whether a reading is on the row of a minute and a sensor.
abbrev pub on_row : {F : Type 0} → Reading F → Time → Text → Bool
on_row r ts mac = (truncate_minute r.ts == ts) && eq_text (normalize_mac r.mac) mac

-- The table, and whether a row was written or why not; `fault` where the statement fails.
unfoldable pub upsert_minute :
    {F : Type 0} → Bool → Reading F → Minutes F → Minutes F × (Bool × Option StoreError)
unfolding merged_row normalize_mac truncate_minute is_empty
upsert_minute fault r minutes =
    if is_blank (normalize_mac r.mac)
    then (minutes, (false, some no_mac))
    else if is_zero r.ts
    then (minutes, (false, some no_timestamp))
    else if is_empty r
    then (minutes, (false, none))
    else if fault
    then (minutes, (false, some database_error))
    else (
      (λ ts mac. if on_row r ts mac then some (merged_row r (minutes ts mac)) else minutes ts mac),
      (true, none),
    )

-- A call of `UpsertMinute`: whether its statement fails, and its reading.
module _ {F : Type 0} where
  -- The table after the calls, the newest first.
  unfoldable pub minutes_after : List (Bool × Reading F) → Minutes F
  unfolding upsert_minute
  minutes_after [] = λ ts mac. none
  minutes_after ((fault, r) ∷ calls) = (upsert_minute fault r (minutes_after calls)).0

  -- The calls that count for a row: those with a sensor, a time and a value that do not fail.
  abbrev counts : Bool → Reading F → Time → Text → Bool
  counts fault r ts mac =
      not (is_blank (normalize_mac r.mac))
      && not (is_zero r.ts)
      && not (is_empty r)
      && not fault
      && on_row r ts mac

  unfoldable pub readings_on : Time → Text → List (Bool × Reading F) → List (Reading F)
  readings_on ts mac [] = []
  readings_on ts mac ((fault, r) ∷ calls) =
      let more = readings_on ts mac calls in if counts fault r ts mac then r ∷ more else more

  -- The newest value that is there.
  abbrev newest : (Reading F → Option F) → List (Reading F) → Option F
  newest metric [] = none
  newest metric (r ∷ rs) = coalesce (metric r) (newest metric rs)

  -- Of each metric the newest value, where there is a reading at all.
  unfoldable pub newest_values : List (Reading F) → Option (MinuteRow F)
  newest_values [] = none
  newest_values (r ∷ rs) = some record {
    temperature_c = newest (λ x. x.temperature_c) (r ∷ rs);
    humidity_percent = newest (λ x. x.humidity_percent) (r ∷ rs);
    battery_percent = newest (λ x. x.battery_percent) (r ∷ rs);
    rssi_dbm = newest (λ x. x.rssi) (r ∷ rs);
    pressure_hpa = newest (λ x. x.pressure_hpa) (r ∷ rs);
    co2_ppm = newest (λ x. x.co2_ppm) (r ∷ rs);
    lux = newest (λ x. x.lux) (r ∷ rs);
    etvoc = newest (λ x. x.etvoc) (r ∷ rs);
    soil_moisture_percent = newest (λ x. x.soil_moisture_percent) (r ∷ rs);
    conductivity_us_cm = newest (λ x. x.conductivity_us_cm) (r ∷ rs);
  }

  coalesce-none : (o : Option F) → coalesce o none ≡ o
  coalesce-none none = refl
  coalesce-none (some x) = refl

  merged_row-newest :
      (r : Reading F) (rs : List (Reading F))
      → some (merged_row r (newest_values rs)) ≡ newest_values (r ∷ rs)
  unfolding merged_row newest_values
  merged_row-newest r [] =
      rw
        (
          coalesce-none r.temperature_c,
          coalesce-none r.humidity_percent,
          coalesce-none r.battery_percent,
          coalesce-none r.rssi,
          coalesce-none r.pressure_hpa,
          coalesce-none r.co2_ppm,
          coalesce-none r.lux,
          coalesce-none r.etvoc,
          coalesce-none r.soil_moisture_percent,
          coalesce-none r.conductivity_us_cm,
        )
        refl
  merged_row-newest r (s ∷ rs) = refl

  chosen :
      (a b c d e : Bool) (minutes new : Minutes F) (row : Option (MinuteRow F))
      (p q t u v : Bool × Option StoreError) (ts : Time) (mac : Text)
      → new ts mac ≡ (if e then row else minutes ts mac)
      → let result : Minutes F × (Bool × Option StoreError) =
          if a
          then (minutes, p)
          else if b
          then (minutes, q)
          else if c
          then (minutes, t)
          else if d
          then (minutes, u)
          else (new, v) in
        result.0 ts mac ≡ (if not a && not b && not c && not d && e then row else minutes ts mac)
  chosen true b c d e minutes new row p q t u v ts mac h = refl
  chosen false true c d e minutes new row p q t u v ts mac h = refl
  chosen false false true d e minutes new row p q t u v ts mac h = refl
  chosen false false false true e minutes new row p q t u v ts mac h = refl
  chosen false false false false e minutes new row p q t u v ts mac h = h

  upsert_minute-row :
      (fault : Bool) (r : Reading F) (minutes : Minutes F) (ts : Time) (mac : Text)
      → (upsert_minute fault r minutes).0 ts mac
        ≡ (if counts fault r ts mac then some (merged_row r (minutes ts mac)) else minutes ts mac)
  unfolding upsert_minute
  upsert_minute-row fault r minutes ts mac =
      chosen (is_blank (normalize_mac r.mac)) (is_zero r.ts) (is_empty r) fault (on_row r ts mac)
        minutes (λ t m. if on_row r t m then some (merged_row r (minutes t m)) else minutes t m)
        (some (merged_row r (minutes ts mac))) (false, some no_mac) (false, some no_timestamp)
        (false, none) (false, some database_error) (true, none) ts mac refl

  -- After any calls of `UpsertMinute`, with whatever failures, the row of a minute and a sensor has of
  -- each metric the newest value that a reading of that minute brought, and there is a row exactly if a
  -- reading with a value was stored: a later reading without a metric does not erase it.
  pub minutes_after-newest :
      (calls : List (Bool × Reading F)) (ts : Time) (mac : Text)
      → minutes_after calls ts mac ≡ newest_values (readings_on ts mac calls)
  unfolding minutes_after readings_on newest_values
  minutes_after-newest [] ts mac = refl
  minutes_after-newest ((fault, r) ∷ calls) ts mac =
      upsert_minute-row fault r (minutes_after calls) ts mac
      ∙ elim (Bool-cases (counts fault r ts mac)) [
        | inl e ↦
            rw (e, minutes_after-newest calls ts mac)
              (merged_row-newest r (readings_on ts mac calls))
        | inr e ↦ rw e (minutes_after-newest calls ts mac)
      ]
