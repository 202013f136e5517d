-- ===== src/Alert.antt =====
-- internal/sensoralert/evaluator.go: the state machine of one threshold rule.
-- Strings that name a state are data types: `unset` is "" and `unknown` any other text.
pub mod Events
pub mod Sustained
pub mod Rules
pub mod Worker
use home_metrics.Base.{Bool, true, false, ◌&&◌, ◌||◌, not, if◌then◌else◌, Option, none, some}
use home_metrics.Base.Float.{Float64}
use home_metrics.Base.Int.{ℤ, pos, ltb_ℤ, leb_ℤ}
use home_metrics.Base.Time.{Time, Duration, elapsed, is_after}

-- Any direction but "below" is read as "above".
pub data Direction : Type 0 where
  above below unknown_direction : Direction

pub data Status : Type 0 where
  unset normal pending firing unknown : Status

pub data EvaluationStatus : Type 0 where
  ok stale no_data disabled : EvaluationStatus

pub data EventType : Type 0 where
  fired resolved : EventType

pub data Reason : Type 0 where
  rule_disabled device_disabled threshold_cleared threshold_crossed : Reason

pub record Rule (F : Type 0) : Type 0 where
  pub direction : Direction
  pub trigger_threshold : F
  pub clear_threshold : F
  pub for_duration : Duration
  pub max_data_age : Duration
  pub enabled : Bool

pub record State (F : Type 0) : Type 0 where
  pub status : Status
  pub pending_since : Option Time
  pub fired_at : Option Time
  pub resolved_at : Option Time
  pub last_value : Option F
  pub last_value_at : Option Time
  pub last_evaluated_at : Option Time
  pub evaluation_status : EvaluationStatus

pub record Observation (F : Type 0) : Type 0 where
  pub time : Time
  pub value : F

pub record Event (F : Type 0) : Type 0 where
  pub kind : EventType
  pub reason : Reason
  pub value : Option F
  pub value_at : Option Time

abbrev pub is_firing : Status → Bool
is_firing firing = true
is_firing _ = false

-- `current.LastValueAt == nil || observation.Time.After(*current.LastValueAt)`.
abbrev pub is_fresh : Option Time → Time → Bool
is_fresh none t = true
is_fresh (some last) t = is_after t last

-- `rule.MaxDataAge > 0 && now.Sub(observation.Time) > rule.MaxDataAge`.
abbrev pub is_stale : Duration → Time → Time → Bool
is_stale max_age now t = ltb_ℤ (pos 0) max_age && ltb_ℤ max_age (elapsed now t)

-- The pending branch restarts its clock after a gap longer than the maximal data age.
abbrev pub has_gap : Option Time → Duration → Time → Bool
has_gap none max_age t = false
has_gap (some last) max_age t = ltb_ℤ (pos 0) max_age && ltb_ℤ max_age (elapsed t last)

abbrev or_else : Option Time → Time → Time
or_else none t = t
or_else (some since) t = since

abbrev pub set_default : Status → Status
set_default unset = normal
set_default s = s

module _ (fl : Float64) where
  open fl use {F, le}

  unfoldable pub triggers : Rule F → F → Bool
  triggers rule value = elim rule.direction [
    | below ↦ le value rule.trigger_threshold
    | _ ↦ le rule.trigger_threshold value
  ]

  unfoldable pub clears : Rule F → F → Bool
  clears rule value = elim rule.direction [
    | below ↦ le rule.clear_threshold value
    | _ ↦ le value rule.clear_threshold
  ]

  abbrev crossing : EventType → Reason → Observation F → Event F
  crossing k r o = record { kind = k; reason = r; value = some o.value; value_at = some o.time }

  abbrev fire : Time → State F → Observation F → State F × Option (Event F)
  fire now s o = (
    record s { status = firing; fired_at = some now; resolved_at = none },
    some (crossing fired threshold_crossed o),
  )

  unfoldable pub on_firing : Time → Rule F → State F → Observation F → State F × Option (Event F)
  on_firing now rule s o =
      if clears rule o.value
      then (
        record s { status = normal; pending_since = none; resolved_at = some now },
        some (crossing resolved threshold_cleared o),
      )
      else (s, none)

  -- `last` is `current.LastValueAt`, the time of the observation before `o`.
  unfoldable pub on_pending :
      Time → Rule F → Option Time → State F → Observation F → State F × Option (Event F)
  on_pending now rule last s o =
      let since = or_else s.pending_since o.time in
      let waiting = record s { pending_since = some since } in
      if not (triggers rule o.value)
      then (record s { status = normal; pending_since = none }, none)
      else if has_gap last rule.max_data_age o.time
      then (record s { pending_since = some o.time }, none)
      else if leb_ℤ rule.for_duration (elapsed o.time since)
      then fire now waiting o
      else (waiting, none)

  -- The `default` branch of the switch.
  unfoldable pub on_normal : Time → Rule F → State F → Observation F → State F × Option (Event F)
  on_normal now rule s o =
      let calm = record s { status = normal } in
      if not (triggers rule o.value)
      then (calm, none)
      else if leb_ℤ rule.for_duration (pos 0)
      then fire now calm o
      else (record s { status = pending; pending_since = some o.time }, none)

  unfoldable pub dispatch :
      Status → Time → Rule F → Option Time → State F → Observation F → State F × Option (Event F)
  dispatch firing now rule last s o = on_firing now rule s o
  dispatch pending now rule last s o = on_pending now rule last s o
  dispatch _ now rule last s o = on_normal now rule s o

  unfoldable pub observe : Time → Rule F → State F → Observation F → State F × Option (Event F)
  observe now rule s o =
      let seen = record s { last_value = some o.value; last_value_at = some o.time } in
      let good = record seen { evaluation_status = ok } in
      if is_stale rule.max_data_age now o.time
      then (record seen { evaluation_status = stale }, none)
      else if not (is_fresh s.last_value_at o.time)
      then (good, none)
      else dispatch s.status now rule s.last_value_at good o

  unfoldable pub disable : Time → Rule F → State F → State F × Option (Event F)
  disable now rule s =
      let off = record s { status = normal; pending_since = none; evaluation_status = disabled } in
      let reason = if not rule.enabled then rule_disabled else device_disabled in
      if is_firing s.status
      then (
        record off { resolved_at = some now },
        some (record {
          kind = resolved;
          reason = reason;
          value = s.last_value;
          value_at = s.last_value_at;
        }),
      )
      else (off, none)

  unfoldable pub evaluate :
      Time → Rule F → Bool → State F → Option (Observation F) → State F × Option (Event F)
  evaluate now rule device_enabled current observation =
      let s = record current {
        status = set_default current.status;
        last_evaluated_at = some now;
      } in
      if not rule.enabled || not device_enabled then disable now rule s else elim observation [
        | none ↦ (record s { evaluation_status = no_data }, none)
        | some o ↦ observe now rule s o
      ]
