-- ===== src/Alert/Events.antt =====
-- internal/sensoralert/evaluator.go: the events that `Evaluate` emits beside the status.
use home_metrics.Base.{
  Bool, true, false, ◌||◌, not, Bool-cases, ◌≡◌, refl, inl, inr, Option, none, some, arith,
}
use home_metrics.Base.Float.{Float64}
use home_metrics.Base.Time.{Time}
use home_metrics.Alert.{
  Status, unset, normal, pending, firing, unknown, EventType, fired, resolved, Rule, State,
  Observation, Event, is_firing, set_default, no_data, ok, on_firing, on_pending, on_normal,
  dispatch, observe, disable, evaluate,
}

-- The event that belongs to a change of `is_firing` from the first to the second.
abbrev pub boundary : Bool → Bool → Option EventType
boundary false true = some fired
boundary true false = some resolved
boundary _ _ = none

abbrev pub kind_of : {F : Type 0} → Option (Event F) → Option EventType
kind_of none = none
kind_of (some e) = some e.kind

set_default-firing : (s : Status) → is_firing (set_default s) ≡ is_firing s
set_default-firing unset = refl
set_default-firing _ = refl

module _ (fl : Float64) where
  open fl use {F}

  abbrev Marks : Status → State F × Option (Event F) → Type 0
  Marks before (s, e) = kind_of e ≡ boundary (is_firing before) (is_firing s.status)

  on_firing-Marks :
      (now : Time) (rule : Rule F) (s : State F) (o : Observation F)
      → s.status ≡ firing
      → Marks firing (on_firing fl now rule s o)
  unfolding on_firing
  on_firing-Marks now rule s o h = ground arith

  on_pending-Marks :
      (now : Time) (rule : Rule F) (last : Option Time) (s : State F) (o : Observation F)
      → s.status ≡ pending
      → Marks pending (on_pending fl now rule last s o)
  unfolding on_pending
  on_pending-Marks now rule last s o h = ground arith

  on_normal-Marks :
      (now : Time) (rule : Rule F) (s : State F) (o : Observation F)
      → Marks normal (on_normal fl now rule s o)
  unfolding on_normal
  on_normal-Marks now rule s o = ground arith

  dispatch-Marks :
      (now : Time) (rule : Rule F) (last : Option Time) (s : State F) (o : Observation F)
      (status : Status)
      → s.status ≡ status
      → Marks status (dispatch fl status now rule last s o)
  unfolding dispatch
  dispatch-Marks now rule last s o firing h = on_firing-Marks now rule s o h
  dispatch-Marks now rule last s o pending h = on_pending-Marks now rule last s o h
  dispatch-Marks now rule last s o normal h = on_normal-Marks now rule s o
  dispatch-Marks now rule last s o unset h = on_normal-Marks now rule s o
  dispatch-Marks now rule last s o unknown h = on_normal-Marks now rule s o

  observe-Marks :
      (now : Time) (rule : Rule F) (s : State F) (o : Observation F)
      → Marks s.status (observe fl now rule s o)
  unfolding observe
  observe-Marks now rule s o =
      let good : State F = record s {
        last_value = some o.value;
        last_value_at = some o.time;
        evaluation_status = ok;
      } in
      ground (arith, dispatch-Marks now rule s.last_value_at good o s.status refl)

  disable-Marks :
      (now : Time) (rule : Rule F) (s : State F) → Marks s.status (disable fl now rule s)
  unfolding disable
  disable-Marks now rule s = ground arith

  -- An evaluation emits a firing event exactly when the status becomes firing, a resolved event
  -- exactly when it stops being firing, and no event otherwise; for every rule, state,
  -- observation and clock.
  pub evaluate-event :
      (now : Time) (rule : Rule F) (device_enabled : Bool) (s : State F)
      (o : Option (Observation F))
      → let (t, e) = evaluate fl now rule device_enabled s o in
        kind_of e ≡ boundary (is_firing s.status) (is_firing t.status)
  unfolding evaluate
  evaluate-event now rule device_enabled s o =
      let s' : State F = record s { status = set_default s.status; last_evaluated_at = some now } in
      elim (Bool-cases (not rule.enabled || not device_enabled)) [
        | inl off ↦ rw (off, ← set_default-firing s.status) (disable-Marks now rule s')
        | inr live ↦ rw (live, ← set_default-firing s.status) (with_observation s' o)
      ]
    where
      with_observation :
          (t : State F) (o : Option (Observation F))
          → Marks t.status (elim o [
            | none ↦ (record t { evaluation_status = no_data }, none)
            | some x ↦ observe fl now rule t x
          ])
      with_observation t none = ground arith
      with_observation t (some x) = observe-Marks now rule t x
