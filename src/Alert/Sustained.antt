-- ===== src/Alert/Sustained.antt =====
-- internal/sensoralert/evaluator.go: the observations that `Evaluate` compared with the threshold, kept
-- in a history, newest first, beside the state.
use home_metrics.Base.{
  Bool, true, ◌&&◌, ◌||◌, not, Bool-cases, ◌≡◌, ◌≢◌, refl, subst, ◌⊎◌, inl, inr, Option, none, some,
  List, [], ◌∷◌, arith, if◌then◌else◌,
}
use home_metrics.Base.Float.{Float64}
use home_metrics.Base.Int.{leb_ℤ}
use home_metrics.Base.Time.{Time, elapsed, elapsed_self}
use home_metrics.Alert.{
  Status, unset, pending, firing, ok, fired, Rule, State, Observation, Event, is_fresh, is_stale,
  or_else, set_default, triggers, on_firing, on_pending, on_normal, dispatch, observe, disable,
  evaluate,
}
use home_metrics.Alert.Events.{kind_of}

module _ (fl : Float64) (rule : Rule fl.F) where
  open fl use {F}

  -- The newest observations of the history, back to one made at `t`, all meet the trigger.
  abbrev pub Streak : Time → List (Observation F) → Type 0
  Streak t [] = ⊥
  Streak t (o ∷ h) = (triggers fl rule o.value ≡ true) × ((o.time ≡ t) ⊎ Streak t h)

  -- A pending state has waited since the start of a streak.
  abbrev Pends : Status → Option Time → List (Observation F) → Type 0
  Pends pending none h = ⊥
  Pends pending (some t) h = Streak t h
  Pends _ _ h = Unit

  abbrev Waits : State F → List (Observation F) → Type 0
  Waits s h = Pends s.status s.pending_since h

  -- The time from which the streak that a firing observation ends is counted.
  abbrev pub onset : State F → Observation F → Time
  onset s o = elim s.status [ pending ↦ or_else s.pending_since o.time | _ ↦ o.time ]

  -- An observation is compared with the threshold where the rule and the device are enabled and
  -- it is neither stale nor one that was seen before.
  unfoldable pub is_compared : Time → Bool → State F → Observation F → Bool
  is_compared now device_enabled s o =
      rule.enabled
      && device_enabled
      && not (is_stale rule.max_data_age now o.time)
      && is_fresh s.last_value_at o.time

  abbrev extend :
      Time → Bool → State F → Option (Observation F) → List (Observation F) → List (Observation F)
  extend now device_enabled s none h = h
  extend now device_enabled s (some o) h = if is_compared now device_enabled s o then o ∷ h else h

  abbrev Lasts : Option (Event F) → Time → Observation F → List (Observation F) → Type 0
  Lasts e t o h =
      kind_of e ≡ some fired
      → Streak t (o ∷ h) × (leb_ℤ rule.for_duration (elapsed o.time t) ≡ true)

  on_firing-Waits :
      (now : Time) (s : State F) (o : Observation F) (h : List (Observation F))
      → s.status ≡ firing
      → let (s', e) = on_firing fl now rule s o in Waits s' (o ∷ h) × Lasts e o.time o h
  unfolding on_firing
  on_firing-Waits now s o h p = ground arith

  on_normal-Waits :
      (now : Time) (s : State F) (o : Observation F) (h : List (Observation F))
      → let (s', e) = on_normal fl now rule s o in Waits s' (o ∷ h) × Lasts e o.time o h
  unfolding on_normal
  on_normal-Waits now s o h = ground (arith, elapsed_self o.time)

  on_pending-Waits :
      (now : Time) (last : Option Time) (s : State F) (o : Observation F) (h : List (Observation F))
      (t : Time)
      → s.status ≡ pending
      → s.pending_since ≡ some t
      → Streak t h
      → let (s', e) = on_pending fl now rule last s o in Waits s' (o ∷ h) × Lasts e t o h
  unfolding on_pending
  on_pending-Waits now last s o h t p q k = ground arith

  dispatch-Waits :
      (now : Time) (last : Option Time) (s : State F) (o : Observation F) (h : List (Observation F))
      (status : Status) (since : Option Time)
      → s.status ≡ status
      → s.pending_since ≡ since
      → Pends status since h
      → let (s', e) = dispatch fl status now rule last s o in
        Waits s' (o ∷ h) × Lasts e (elim status [ pending ↦ or_else since o.time | _ ↦ o.time ]) o h
  unfolding dispatch
  dispatch-Waits now last s o h firing since p q k = on_firing-Waits now s o h p
  dispatch-Waits now last s o h pending none p q k = absurd k
  dispatch-Waits now last s o h pending (some t) p q k = on_pending-Waits now last s o h t p q k
  dispatch-Waits now last s o h _ since p q k = on_normal-Waits now s o h

  observe-Waits :
      (now : Time) (s : State F) (o : Observation F) (h : List (Observation F))
      → Waits s h
      → let (s', e) = observe fl now rule s o in
        let compared =
          not (is_stale rule.max_data_age now o.time) && is_fresh s.last_value_at o.time in
        Waits s' (if compared then o ∷ h else h) × Lasts e (onset s o) o h
  unfolding observe
  observe-Waits now s o h k =
      let good : State F = record s {
        last_value = some o.value;
        last_value_at = some o.time;
        evaluation_status = ok;
      } in
      let step = dispatch-Waits now s.last_value_at good o h s.status s.pending_since refl refl k in
      elim (Bool-cases (is_stale rule.max_data_age now o.time)) [
        | inl old ↦ rw old (k, λ e. cc)
        | inr recent ↦ elim (Bool-cases (is_fresh s.last_value_at o.time)) [
          | inl new ↦ rw (recent, new) step
          | inr seen ↦ rw (recent, seen) (k, λ e. cc)
        ]
      ]

  disable-Waits :
      (now : Time) (s : State F) (h : List (Observation F))
      → let (s', e) = disable fl now rule s in Waits s' h × ((kind_of e ≡ some fired) → ⊥)
  unfolding disable
  disable-Waits now s h = ground arith

  Pends-set_default :
      (status : Status) (since : Option Time) (h : List (Observation F))
      → Pends status since h
      → Pends (set_default status) since h
  Pends-set_default unset since h k = tt
  Pends-set_default _ since h k = k

  onset-set_default :
      (status : Status) (since : Option Time) (t : Time)
      → elim (set_default status) [ pending ↦ or_else since t | _ ↦ t ]
        ≡ elim status [ pending ↦ or_else since t | _ ↦ t ]
  onset-set_default unset since t = refl
  onset-set_default _ since t = refl

  abbrev LastsIfSeen :
      Option (Event F) → State F → Option (Observation F) → List (Observation F) → Type 0
  LastsIfSeen e s none h = kind_of e ≡ some fired → ⊥
  LastsIfSeen e s (some o) h = Lasts e (onset s o) o h

  evaluate-Waits :
      (now : Time) (device_enabled : Bool) (s : State F) (o : Option (Observation F))
      (h : List (Observation F))
      → Waits s h
      → let (s', e) = evaluate fl now rule device_enabled s o in
        Waits s' (extend now device_enabled s o h) × LastsIfSeen e s o h
  unfolding evaluate is_compared
  evaluate-Waits now device_enabled s none h k =
      let s' : State F = record s { status = set_default s.status; last_evaluated_at = some now } in
      elim (Bool-cases (not rule.enabled || not device_enabled)) [
        | inl off ↦ rw off (disable-Waits now s' h)
        | inr live ↦ rw live (Pends-set_default s.status s.pending_since h k, λ e. cc)
      ]
  evaluate-Waits now device_enabled s (some o) h k =
      let s' : State F = record s { status = set_default s.status; last_evaluated_at = some now } in
      let k' = Pends-set_default s.status s.pending_since h k in
      let off = disable-Waits now s' h in
      let on = observe-Waits now s' o h k' in
      let later =
        subst (λ t. Lasts (observe fl now rule s' o).1 t o h)
          (onset-set_default s.status s.pending_since o.time) on.1 in
      elim (Bool-cases rule.enabled) [
        | inl r ↦ elim (Bool-cases device_enabled) [
          | inl d ↦ simp (r, d) (on.0, later)
          | inr d ↦ simp (r, d) (off.0, λ e. absurd (off.1 e))
        ]
        | inr r ↦ simp r (off.0, λ e. absurd (off.1 e))
      ]

  -- One call of the evaluation: the clock, whether the device is enabled, the latest observation.
  pub record Tick : Type 0 where
    pub now : Time
    pub device_enabled : Bool
    pub observation : Option (Observation F)

  -- The state with the history, after a list of evaluations.
  unfoldable pub follow :
      State F → List (Observation F) → List Tick → State F × List (Observation F)
  follow s h [] = (s, h)
  follow s h (k ∷ ks) =
      follow (evaluate fl k.now rule k.device_enabled s k.observation).0
        (extend k.now k.device_enabled s k.observation h) ks

  follow-Waits :
      (s : State F) (h : List (Observation F)) (ks : List Tick)
      → Waits s h
      → Waits (follow s h ks).0 (follow s h ks).1
  unfolding follow
  follow-Waits s h [] w = w
  follow-Waits s h (k ∷ ks) w =
      follow-Waits (evaluate fl k.now rule k.device_enabled s k.observation).0
        (extend k.now k.device_enabled s k.observation h) ks
        (evaluate-Waits k.now k.device_enabled s k.observation h w).0

  -- Start a rule that is not pending, and evaluate it any number of times. If the next evaluation,
  -- on the observation `o`, emits a firing event, then every observation that was compared with
  -- the threshold, from one made at the onset up to `o`, meets the trigger, and the time from the
  -- onset to `o` is at least the rule's duration.
  pub fired-sustained :
      (start : State F) (ks : List Tick) (now : Time) (device_enabled : Bool) (o : Observation F)
      → start.status ≢ pending
      → kind_of (evaluate fl now rule device_enabled (follow start [] ks).0 (some o)).1 ≡ some fired
      → let (s, h) = follow start [] ks in
        Streak (onset s o) (o ∷ h) × (leb_ℤ rule.for_duration (elapsed o.time (onset s o)) ≡ true)
  fired-sustained start ks now device_enabled o idle e =
      let (s, h) = follow start [] ks in
      (evaluate-Waits now device_enabled s (some o) h
          (follow-Waits start [] ks (Pends-idle start.status start.pending_since idle))).1
        e
    where
      Pends-idle :
          (status : Status) (since : Option Time) → status ≢ pending → Pends status since []
      Pends-idle pending since n = absurd (n refl)
      Pends-idle _ since n = tt
