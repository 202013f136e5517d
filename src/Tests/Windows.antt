-- ===== src/Tests/Windows.antt =====
-- Windows, the outlier filter and the registry of the Bluetooth collector at concrete inputs, with the
-- integers for Go's `float64`.
use home_metrics.Base.{◌*◌, ◌≡◌, refl, true, false, List, [], ◌∷◌, none, some, arith}
use home_metrics.Base.Int.{ℤ, pos, pos_part, neg_part, ◌+ℤ◌, ◌-ℤ◌}
use home_metrics.Base.Time.{Time, minute}
use home_metrics.Base.Text.{Text, codes}
use home_metrics.Sensor.{Reading}
use home_metrics.Windows.{Window, Key, new_window, flush_completed}
use home_metrics.Windows.Flushed.{IsSettled, flush_completed-IsSettled}
use home_metrics.Windows.Store.{Database, flush, backfill_sensor_minute_readings}
use home_metrics.Windows.Backfill.{Stops, backfill-Stops}
use home_metrics.Ble.Filter.{OutlierConfig, Histories, judge, filter_metric, threshold_of}
use home_metrics.Ble.Flush.{FlushState}
use home_metrics.Ble.Flush.Retry.{filter_metric-retry}
use home_metrics.Ble.Ranges.{MeansStay}
use home_metrics.Ble.Ranges.Stored.{Fits, rounds, rounds-Fits}
use home_metrics.Ble.Supported.{
  history_after, Supported, judge-Supported, IsSound, history_after-IsSound,
}
use home_metrics.Tests.Integers.{integers}

abbrev mac : Text
mac = codes "aa:bb:cc:dd:ee:ff"

abbrev measured : Time → ℤ → Reading ℤ
measured ts t = record {
  ts = ts;
  mac = mac;
  temperature_c = some t;
  humidity_percent = none;
  battery_percent = none;
  rssi = none;
  pressure_hpa = none;
  co2_ppm = none;
  lux = none;
  etvoc = none;
  soil_moisture_percent = none;
  conductivity_us_cm = none;
}

-- Another text for each number.
abbrev print : ℤ → Text
print z = pos_part z ∷ neg_part z ∷ []

-- Three readings of a minute, of which one repeats another.
abbrev readings : List (Reading ℤ)
readings = measured 63 (pos 22) ∷ measured 62 (pos 21) ∷ measured 61 (pos 21) ∷ []

abbrev database : Database ℤ
database = record { minutes = λ ts m. none; faults = true ∷ [] }

abbrev key : Time → Text → Key
key ts zone = record { mac = mac; at = ts; zone = zone }

abbrev open_windows : List (Window ℤ)
open_windows = new_window (key minute []) ∷ new_window (key (2 * minute) []) ∷ []

-- The newest of the readings has its time in another zone.
abbrev zoned : List (Text × Reading ℤ)
zoned =
    (codes "+09:00", measured 63 (pos 22))
    ∷ (codes "Z", measured 62 (pos 21))
    ∷ (codes "Z", measured 61 (pos 21))
    ∷ []

-- The second of three upserts fails.
abbrev second_fails : Database ℤ
second_fails = record { minutes = λ ts m. none; faults = false ∷ true ∷ [] }

backfill-Stops_example :
    Stops false 0 readings second_fails
      (backfill_sensor_minute_readings false readings second_fails)
backfill-Stops_example = backfill-Stops false readings second_fails

flush_completed-IsSettled_example :
    IsSettled
      (flush integers false)
      (2 * minute)
      open_windows
      database
      (flush_completed (flush integers false) (2 * minute) open_windows database)
flush_completed-IsSettled_example =
    flush_completed-IsSettled (flush integers false) (2 * minute) open_windows database

means : MeansStay integers
unfolding ◌+ℤ◌
means lo hi a b p q h k = ground arith

abbrev filter : OutlierConfig ℤ
filter = record {
  enabled = true;
  history_size = pos 5;
  confirm_window = pos (10 * minute);
  thresholds = λ name. some (pos 3);
}

abbrev idle : List (Window ℤ) × FlushState ℤ
idle = (
  [],
  record { histories = λ m name. record { accepted = []; pending = none }; database = database },
)

rounds-Fits_example :
    Fits integers filter means
      (rounds integers filter means print ((70, readings) ∷ (2 * minute, []) ∷ []) idle)
rounds-Fits_example =
    rounds-Fits integers filter means print ((70, readings) ∷ (2 * minute, []) ∷ []) idle
      (tt, λ ts m. tt)

-- Three accepted values and a rejected one, the newest first.
abbrev judged : List (Time × ℤ)
judged = (4, pos 40) ∷ (3, pos 20) ∷ (2, pos 21) ∷ (1, pos 20) ∷ []

confirmed :
    (judge integers 5
      (pos 60)
      (pos 3)
      (history_after integers 5 (pos 60) (pos 3) judged)
      5
      (pos 41)).1
    ≡ some (pos 41)
unfolding history_after ◌-ℤ◌
confirmed = refl

judge-Supported_example :
    (◌≡◌ {A = ℤ} (pos 41) (pos 41)) × Supported integers 5 (pos 60) (pos 3) judged 5 (pos 41)
judge-Supported_example =
    judge-Supported integers 5 (pos 60) (pos 3) judged 5 (pos 41) (pos 41) confirmed

abbrev IsPositive : ℤ → Type 0
IsPositive z = neg_part z ≡ 0

history_after-IsSound_example :
    IsSound integers 5
      (pos 60)
      (pos 3)
      IsPositive
      (history_after integers 5 (pos 60) (pos 3) judged)
history_after-IsSound_example =
    history_after-IsSound integers 5 (pos 60) (pos 3) IsPositive judged (omega arith)

abbrev histories : Histories ℤ
histories m name = record { accepted = pos 20 ∷ pos 21 ∷ pos 20 ∷ []; pending = none }

rejected :
    (filter_metric integers filter histories mac (codes "temperature_c") 5 (some (pos 40))).1 ≡ none
unfolding filter_metric ◌-ℤ◌
rejected = refl

near_itself :
    (t : ℤ)
    → threshold_of integers filter (codes "temperature_c") ≡ some t
    → integers.le (integers.abs (integers.sub (pos 40) (pos 40))) t ≡ true
unfolding ◌-ℤ◌
near_itself t e = ground arith

filter_metric-retry_example :
    (filter_metric integers filter
      (filter_metric integers filter histories mac (codes "temperature_c") 5 (some (pos 40))).0
      mac
      (codes "temperature_c")
      5
      (some (pos 40))).1
    ≡ some (pos 40)
filter_metric-retry_example =
    filter_metric-retry integers filter histories mac (codes "temperature_c") 5 (pos 40) rejected
      near_itself refl
