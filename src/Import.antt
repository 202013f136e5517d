-- ===== src/Import.antt =====
-- cmd/hm-energy-influx-import/main.go: the columns and the records of a CSV stream.
-- `encoding/csv`, `time.Parse`, `strconv.ParseFloat` and the database are outside.
pub mod Rows
pub mod Run
pub mod Batches
use home_metrics.Base.{
  ℕ, suc, ◌+◌, Bool, true, false, List, [], ◌∷◌, ◌++◌, Option, none, some, ◌==◌, ◌||◌,
  if◌then◌else◌, length, get_elem?, leb,
}
use home_metrics.Base.Int.{ℤ, pos, leb_ℤ, pos_part}
use home_metrics.Base.Time.{Time}
use home_metrics.Base.Text.{Text, codes, eq_text, trim_space}
use home_metrics.Store.{is_blank}

pub data Mode : Type 0 where
  nature_remo echonet apcupsd : Mode

pub record InfluxRow (F : Type 0) : Type 0 where
  pub ts : Time
  pub source : Text
  pub device_key : Text
  pub instance_name : Text
  pub metric : Text
  pub value : F
  pub unit : Text
  pub raw_property : Text
  pub raw_topic : Text

pub record MetricConfig : Type 0 where
  pub name : Text
  pub in_unit : Text

abbrev config : Text → Text → MetricConfig
config m u = record { name = m; in_unit = u }

abbrev pub echonet_metrics : List (Text × MetricConfig)
echonet_metrics =
    (codes "solar_generation_w", config (codes "solar_generation_w") (codes "W"))
    ∷ (codes "battery_remaining", config (codes "battery_remaining") (codes "%"))
    ∷ (codes "battery_power_w", config (codes "battery_power_w") (codes "W"))
    ∷ []

abbrev pub apcupsd_metrics : List (Text × MetricConfig)
apcupsd_metrics =
    (codes "input_voltage", config (codes "input_voltage_v") (codes "V"))
    ∷ (codes "load_percent", config (codes "load_percent") (codes "%"))
    ∷ (codes "battery_charge_percent", config (codes "battery_charge_percent") (codes "%"))
    ∷ (codes "battery_voltage", config (codes "battery_voltage_v") (codes "V"))
    ∷ []

abbrev pub config_of : List (Text × MetricConfig) → Text → Option MetricConfig
config_of [] field = none
config_of ((k, c) ∷ cs) field =
    let more = config_of cs field in if eq_text k field then some c else more

pub data ImportError : Type 0 where
  unreadable_record missing_header missing_column record_too_short : ImportError
  time_refused value_refused store_failed : ImportError

pub data Result {ℓ} (A : Type ℓ) : Type ℓ where
  ok : A → Result A
  err : ImportError → Result A

infixl 1 ◌>>=◌
unfoldable pub ◌>>=◌ {ℓ κ} : {A : Type ℓ} {B : Type κ} → Result A → (A → Result B) → Result B
ok a >>= f = f a
err e >>= f = err e

abbrev pub or_error {ℓ} : {A : Type ℓ} → ImportError → Option A → Result A
or_error e (some a) = ok a
or_error e none = err e

-- The place of a column: `columns` is filled from the left, so that the last of a name counts.
abbrev later_or : Option ℕ → Option ℕ → Option ℕ
later_or (some p) q = some p
later_or none q = q

unfoldable pub column_of : ℕ → List Text → Text → Option ℕ
column_of i [] name = none
column_of i (h ∷ hs) name =
    later_or (column_of (suc i) hs name) (if eq_text h name then some i else none)

abbrev at_column : List Text → Option ℕ → Result Text
at_column values none = err missing_column
at_column values (some p) = or_error record_too_short (get_elem? values p)

unfoldable pub get : List Text → List Text → Text → Result Text
unfolding column_of
get columns values name = at_column values (column_of 0 columns name)

abbrev or_empty : Result Text → Text
or_empty (ok s) = s
or_empty (err e) = []

unfoldable pub get_optional : List Text → List Text → Text → Text
unfolding get
get_optional columns values name = or_empty (get columns values name)

unfoldable pub trimmed : List Text → List Text → Text → Text
unfolding get_optional trim_space
trimmed columns vs name = trim_space (get_optional columns vs name)

abbrev pub first_of : Text → Text → Text
first_of s fallback = if is_blank s then fallback else s

unfoldable pub has_csv_header : List Text → Bool
has_csv_header [] = false
has_csv_header (v ∷ vs) =
    let more = has_csv_header vs in
    eq_text v (codes "_time") || eq_text v (codes "_value") || eq_text v (codes "_field") || more

-- A record that is passed over: without a field, or a comment.
abbrev starts_comment : Text → Bool
starts_comment [] = false
starts_comment (c ∷ s) = c == b'#'

unfoldable pub is_passed_over : List Text → Bool
is_passed_over [] = true
is_passed_over (v ∷ vs) = starts_comment v

-- What the CSV reader gives: a record, or an error.
pub data Line : Type 0 where
  values : List Text → Line
  unreadable : Line

-- What a record is to the loop of `parseAndImport`.
pub data Turn (F : Type 0) : Type 0 where
  skip : Turn F
  header : List Text → Turn F
  row : InfluxRow F → Turn F
  stop : ImportError → Turn F
