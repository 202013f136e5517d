-- ===== src/Alert/Rules.antt =====
-- The validation of a rule in cmd/hm-api-server/alerts.go, and how cmd/hm-sensor-alert-worker
-- reads a stored rule back.
pub mod Hysteresis
use Prim.Native.String.{String}
use home_metrics.Base.{
  ℕ, ◌+◌, ◌*◌, Bool, true, false, ◌&&◌, ◌||◌, not, Option, none, some, List, [], ◌∷◌, ltb, ◌==◌,
  if◌then◌else◌,
}
use home_metrics.Base.Float.{Float64}
use home_metrics.Base.Int.{ℤ, pos, negsuc, ltb_ℤ}
use home_metrics.Base.Text.{Text, codes, trim_space, to_lower, eq_text}
use home_metrics.Sensor.{columns}
use home_metrics.Alert.{Direction, above, below, unknown_direction}

-- The messages of the errors, named.
pub data RuleError : Type 0 where
  bad_name no_mac unsupported_metric bad_direction thresholds_not_finite : RuleError
  clear_not_below_trigger clear_not_above_trigger : RuleError
  bad_for_duration bad_max_data_age bad_severity no_enabled : RuleError

pub data Checked {ℓ} (A : Type ℓ) : Type ℓ where
  accepted : A → Checked A
  rejected : RuleError → Checked A

-- Absent JSON fields are `none`; integers are `int64`.
pub record RuleRequest (F : Type 0) : Type 0 where
  pub name : Text
  pub mac : Text
  pub metric : Text
  pub direction : Text
  pub trigger_threshold : Option F
  pub clear_threshold : Option F
  pub for_duration_seconds : Option ℤ
  pub max_data_age_seconds : Option ℤ
  pub severity : Text
  pub enabled : Option Bool

pub record ValidatedRule (F : Type 0) : Type 0 where
  pub name : Text
  pub mac : Text
  pub metric : Text
  pub direction : Text
  pub trigger_threshold : F
  pub clear_threshold : F
  pub for_duration_seconds : ℤ
  pub max_data_age_seconds : ℤ
  pub severity : Text
  pub enabled : Bool

abbrev lower : Text → Text
lower [] = []
lower (c ∷ s) = to_lower c ∷ lower s

abbrev utf8_width : ℕ → ℕ
utf8_width c = if ltb c 0x80 then 1 else if ltb c 0x800 then 2 else if ltb c 0x10000 then 3 else 4

-- `len(s)`: the bytes of the UTF-8 encoding.
unfoldable pub byte_length : Text → ℕ
byte_length [] = 0
byte_length (c ∷ s) = utf8_width c + byte_length s

unfoldable pub has_key : Text → List (String × String) → Bool
has_key metric [] = false
has_key metric ((k, c) ∷ rest) = eq_text (codes k) metric || has_key metric rest

-- `_, ok := metricColumns[metric]`.
unfoldable pub has_column : Text → Bool
unfolding has_key
has_column metric = has_key metric columns

abbrev pub is_text : String → Text → Bool
is_text name s = eq_text (codes name) s

abbrev pub outside : ℤ → ℤ → ℤ → Bool
outside lo hi n = ltb_ℤ n lo || ltb_ℤ hi n

module _ (fl : Float64) where
  open fl use {F, le, is_finite}

  -- The checks that follow those of the thresholds.
  unfoldable pub check_rest : RuleRequest F → ValidatedRule F → Checked (ValidatedRule F)
  check_rest r v = elim r.for_duration_seconds [
    | none ↦ rejected bad_for_duration
    | some d ↦
        if outside (pos 0) (pos 2592000) d
        then rejected bad_for_duration
        else elim r.max_data_age_seconds [
          | none ↦ rejected bad_max_data_age
          | some a ↦
              if outside (pos 1) (pos 31536000) a
              then rejected bad_max_data_age
              else let severity = trim_space r.severity in
                if not (
                  is_text "info" severity
                  || is_text "warning" severity
                  || is_text "critical" severity)
                then rejected bad_severity
                else elim r.enabled [
                  | none ↦ rejected no_enabled
                  | some on ↦ accepted (record v {
                    for_duration_seconds = d;
                    max_data_age_seconds = a;
                    severity = severity;
                    enabled = on;
                  })
                ]
        ]
  ]

  abbrev pub draft : Text → Text → Text → Text → F → F → ValidatedRule F
  draft name mac metric direction trigger clear = record {
    name = name;
    mac = mac;
    metric = metric;
    direction = direction;
    trigger_threshold = trigger;
    clear_threshold = clear;
    for_duration_seconds = pos 0;
    max_data_age_seconds = pos 0;
    severity = [];
    enabled = false;
  }

  unfoldable pub check_thresholds :
      RuleRequest F → Text → Text → Text → Text → F → F → Checked (ValidatedRule F)
  check_thresholds r name mac metric direction trigger clear =
      if not (is_finite trigger) || not (is_finite clear)
      then rejected thresholds_not_finite
      else if is_text "above" direction && le trigger clear
      then rejected clear_not_below_trigger
      else if is_text "below" direction && le clear trigger
      then rejected clear_not_above_trigger
      else check_rest r (draft name mac metric direction trigger clear)

  unfoldable pub validate_rule : RuleRequest F → Checked (ValidatedRule F)
  validate_rule r =
      let name = trim_space r.name in
      let mac = lower (trim_space r.mac) in
      let metric = trim_space r.metric in
      let direction = trim_space r.direction in
      if eq_text name [] || ltb 200 (byte_length name)
      then rejected bad_name
      else if eq_text mac []
      then rejected no_mac
      else if not (has_column metric)
      then rejected unsupported_metric
      else if not (is_text "above" direction) && not (is_text "below" direction)
      then rejected bad_direction
      else elim r.trigger_threshold [
        | none ↦ rejected thresholds_not_finite
        | some trigger ↦ elim r.clear_threshold [
          | none ↦ rejected thresholds_not_finite
          | some clear ↦ check_thresholds r name mac metric direction trigger clear
        ]
      ]
