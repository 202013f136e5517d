-- ===== src/Windows.antt =====
-- cmd/hm-cisco-iot-orchestrator-collector/aggregate.go: readings are collected in a window per sensor
-- and minute, and a completed window is flushed. The loops over the map of windows serve
-- cmd/hm-ble-collector/main.go as well. The map is the list of its windows in the order in which a
-- loop meets them; the text of a key, MAC and minute, is the pair of the two.
pub mod Flushed
pub mod Grouped
pub mod Store
pub mod Backfill
use home_metrics.Base.{
  ℕ, suc, ◌+◌, Bool, true, false, List, [], ◌∷◌, ◌++◌, Option, none, some, ◌==◌, ◌&&◌,
  if◌then◌else◌, length,
}
use home_metrics.Base.Int.{ℤ, pos}
use home_metrics.Base.Time.{Time, Duration, is_before, is_zero, elapsed, truncate_minute}
use home_metrics.Base.Text.{Text, codes, eq_text}
use home_metrics.Sensor.{Reading}

-- The slices of an `aggregate`.
pub record Samples (F : Type 0) : Type 0 where
  pub rssi : List F
  pub temperature_c : List F
  pub humidity_percent : List F
  pub battery_percent : List F
  pub pressure_hpa : List F
  pub co2_ppm : List F
  pub lux : List F
  pub etvoc : List F
  pub soil_moisture_percent : List F
  pub conductivity_us_cm : List F

abbrev pub no_samples : (F : Type 0) → Samples F
no_samples F = record {
  rssi = [];
  temperature_c = [];
  humidity_percent = [];
  battery_percent = [];
  pressure_hpa = [];
  co2_ppm = [];
  lux = [];
  etvoc = [];
  soil_moisture_percent = [];
  conductivity_us_cm = [];
}

-- An `aggregate`, without the label and the other fields of the registry, which are never read.
pub record Window (F : Type 0) : Type 0 where
  pub sensor_mac : Text
  pub window : Time
  pub zone : Text
  pub samples : Samples F
  pub last_comparable : Text

-- What tells the windows apart, the text `mac|RFC3339`: the sensor, the minute, and the zone of the
-- time, which the format writes behind it. `zone` is that ending of the text.
pub record Key : Type 0 where
  pub mac : Text
  pub at : Time
  pub zone : Text

abbrev pub eq_key : Key → Key → Bool
eq_key k j = eq_text k.mac j.mac && (k.at == j.at) && eq_text k.zone j.zone

abbrev pub new_window : {F : Type 0} → Key → Window F
new_window {F} k = record {
  sensor_mac = k.mac;
  window = k.at;
  zone = k.zone;
  samples = no_samples F;
  last_comparable = [];
}

-- A nil pointer adds nothing.
abbrev pub append_ptr {ℓ} : {A : Type ℓ} → List A → Option A → List A
append_ptr vs none = vs
append_ptr vs (some v) = vs ++ v ∷ []

abbrev pub no_sample {ℓ} : {A : Type ℓ} → List A → Bool
no_sample [] = true
no_sample (v ∷ vs) = false

module _ {F : Type 0} where
  unfoldable pub append_all : Samples F → Reading F → Samples F
  append_all s r = record {
    rssi = append_ptr s.rssi r.rssi;
    temperature_c = append_ptr s.temperature_c r.temperature_c;
    humidity_percent = append_ptr s.humidity_percent r.humidity_percent;
    battery_percent = append_ptr s.battery_percent r.battery_percent;
    pressure_hpa = append_ptr s.pressure_hpa r.pressure_hpa;
    co2_ppm = append_ptr s.co2_ppm r.co2_ppm;
    lux = append_ptr s.lux r.lux;
    etvoc = append_ptr s.etvoc r.etvoc;
    soil_moisture_percent = append_ptr s.soil_moisture_percent r.soil_moisture_percent;
    conductivity_us_cm = append_ptr s.conductivity_us_cm r.conductivity_us_cm;
  }

  unfoldable pub is_empty : Samples F → Bool
  is_empty s =
      no_sample s.rssi
      && no_sample s.temperature_c
      && no_sample s.humidity_percent
      && no_sample s.battery_percent
      && no_sample s.pressure_hpa
      && no_sample s.co2_ppm
      && no_sample s.lux
      && no_sample s.etvoc
      && no_sample s.soil_moisture_percent
      && no_sample s.conductivity_us_cm

  -- `print` is `strconv.FormatFloat(v, 'f', -1, 64)`.
  abbrev pub ptr_key : (F → Text) → Option F → Text
  ptr_key print none = codes "-"
  ptr_key print (some v) = print v

  unfoldable pub reading_key : (F → Text) → Reading F → Text
  reading_key print r =
      codes "rssi="
      ++ (ptr_key print r.rssi
          ++ (codes "|t="
              ++ (ptr_key print r.temperature_c
                  ++ (codes "|h="
                      ++ (ptr_key print r.humidity_percent
                          ++ (codes "|b="
                              ++ (ptr_key print r.battery_percent
                                  ++ (codes "|p="
                                      ++ (ptr_key print r.pressure_hpa
                                          ++ (codes "|co2="
                                              ++ (ptr_key print r.co2_ppm
                                                  ++ (codes "|lux="
                                                      ++ (ptr_key print r.lux
                                                          ++ (codes "|etvoc="
                                                            ++ (ptr_key print r.etvoc
                                                            ++ (codes "|soil="
                                                            ++ (ptr_key print
                                                            r.soil_moisture_percent
                                                            ++ (codes "|cond="
                                                            ++ ptr_key print
                                                            r.conductivity_us_cm))))))))))))))))))

  abbrev pub key_of : Window F → Key
  key_of w = record { mac = w.sensor_mac; at = w.window; zone = w.zone }

  abbrev pub has_key : Key → Window F → Bool
  has_key k w = eq_key (key_of w) k

  -- The part of `add` after the lookup of the window; `key` is the text of `readingKey`.
  unfoldable pub absorb : Text → Reading F → Window F → Window F
  unfolding append_all
  absorb key r w =
      if eq_text key w.last_comparable
      then w
      else record w { last_comparable = key; samples = append_all w.samples r }

  abbrev pub update : Text → Key → Reading F → List (Window F) → List (Window F)
  update key k r [] = absorb key r (new_window k) ∷ []
  update key k r (w ∷ ws) = if has_key k w then absorb key r w ∷ ws else w ∷ update key k r ws

  unfoldable pub window_key : Text → Reading F → Key
  unfolding truncate_minute
  window_key zone r = record { mac = r.mac; at = truncate_minute r.ts; zone = zone }

  -- `keys` is `readingKey`, and `zone` that of the time of the reading.
  unfoldable pub add : (Reading F → Text) → Text → Reading F → List (Window F) → List (Window F)
  unfolding absorb window_key
  add keys zone r ws = update (keys r) (window_key zone r) r ws

  -- `pendingSummary`: the oldest window, none for the zero time.
  abbrev oldest_from : Time → List (Window F) → Time
  oldest_from oldest [] = oldest
  oldest_from oldest (w ∷ ws) =
      oldest_from
        (if is_zero oldest
          then w.window
          else if is_before w.window oldest
          then w.window
          else oldest)
        ws

  unfoldable pub pending_summary : Time → List (Window F) → ℕ × Duration
  unfolding elapsed
  pending_summary now ws =
      let oldest = oldest_from 0 ws in
      if is_zero oldest
      then (length ws, pos 0)
      else if is_before now oldest
      then (length ws, pos 0)
      else (length ws, elapsed now oldest)

-- What the flush of a window comes to: a row written, nothing to write, or an error.
pub data Outcome (E : Type 0) : Type 0 where
  wrote : Outcome E
  nothing : Outcome E
  failed : E → Outcome E

-- What a loop over the windows leaves: the state behind the flushes, the windows, the number of rows
-- written and the errors, in the order of the windows.
pub record Swept (D F E : Type 0) : Type 0 where
  pub state : D
  pub windows : List (Window F)
  pub flushed : ℕ
  pub errors : List E

module _ {D F E : Type 0} (flush : D → Window F → D × Outcome E) where
  -- What the rest of the loop leaves, with the window before it that is kept.
  abbrev kept : Window F → Swept D F E → Swept D F E
  kept w s = record s { windows = w ∷ s.windows }

  -- The same for a window that was flushed.
  abbrev settled : Window F → Outcome E → Swept D F E → Swept D F E
  settled w wrote s = record s { flushed = suc s.flushed }
  settled w nothing s = s
  settled w (failed e) s = record s { windows = w ∷ s.windows; errors = e ∷ s.errors }

  -- `flushCompleted`, with `current` the minute that is not complete yet.
  unfoldable pub flush_completed : Time → List (Window F) → D → Swept D F E
  flush_completed current [] d = record { state = d; windows = []; flushed = 0; errors = [] }
  flush_completed current (w ∷ ws) d = elim (is_before w.window current) [
    | true ↦ settled w (flush d w).1 (flush_completed current ws (flush d w).0)
    | false ↦ kept w (flush_completed current ws d)
  ]

  unfoldable pub flush_all : List (Window F) → D → Swept D F E
  flush_all [] d = record { state = d; windows = []; flushed = 0; errors = [] }
  flush_all (w ∷ ws) d = settled w (flush d w).1 (flush_all ws (flush d w).0)
