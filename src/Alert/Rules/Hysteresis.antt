-- ===== src/Alert/Rules/Hysteresis.antt =====
-- cmd/hm-api-server/alerts.go and cmd/hm-sensor-alert-worker/main.go: an accepted request, and the
-- rule that the worker reads back.
use home_metrics.Base.{
  ◌≤◌, ◌≡◌, ◌⊎◌, inl, inr, true, false, [], ◌∷◌, arith, ◌&&◌, Option-cases, if◌then◌else◌,
}
use home_metrics.Base.Float.{Float64, IsOrdered}
use home_metrics.Base.Int.{ℤ, pos, ◌≤ℤ◌, ◌*ℤ◌, wrap64}
use home_metrics.Base.Text.{Text, eq_text, trim_space}
use home_metrics.Alert.{Direction, above, below, unknown_direction, Rule, triggers, clears}
use home_metrics.Alert.Rules.{
  RuleRequest, ValidatedRule, accepted, lower, draft, byte_length, has_column, is_text, check_rest,
  check_thresholds, validate_rule,
}

-- How the worker reads the direction and the durations of a stored rule.
unfoldable pub direction_of : Text → Direction
direction_of s =
    if is_text "below" s then below else if is_text "above" s then above else unknown_direction

abbrev pub seconds : ℤ → ℤ
seconds n = wrap64 (n *ℤ pos 1_000_000_000)

module _ {F : Type 0} where
  pub stored_rule : ValidatedRule F → Rule F
  stored_rule v = record {
    direction = direction_of v.direction;
    trigger_threshold = v.trigger_threshold;
    clear_threshold = v.clear_threshold;
    for_duration = seconds v.for_duration_seconds;
    max_data_age = seconds v.max_data_age_seconds;
    enabled = v.enabled;
  }

not_both : (s : Text) → is_text "above" s ≡ true → is_text "below" s ≡ true → ⊥
unfolding eq_text
not_both [] p q = cc
not_both (c ∷ s) p q = ground arith

module _ (fl : Float64) where
  open fl use {F, le, is_finite}

  pub record IsWellFormed (v : ValidatedRule F) : Type 0 where
    pub named : eq_text v.name [] ≡ false
    pub name_fits : byte_length v.name ≤ 200
    pub has_mac : eq_text v.mac [] ≡ false
    pub known_metric : has_column v.metric ≡ true
    pub trigger_finite : is_finite v.trigger_threshold ≡ true
    pub clear_finite : is_finite v.clear_threshold ≡ true
    pub separated :
        ((is_text "above" v.direction ≡ true) × (le v.trigger_threshold v.clear_threshold ≡ false))
        ⊎ ((is_text "below" v.direction ≡ true)
            × (le v.clear_threshold v.trigger_threshold ≡ false))
    pub for_duration_in_range :
        (pos 0 ≤ℤ v.for_duration_seconds) × (v.for_duration_seconds ≤ℤ pos 2592000)
    pub max_data_age_in_range :
        (pos 1 ≤ℤ v.max_data_age_seconds) × (v.max_data_age_seconds ≤ℤ pos 31536000)
    pub known_severity :
        (is_text "info" v.severity ≡ true)
        ⊎ (is_text "warning" v.severity ≡ true)
        ⊎ (is_text "critical" v.severity ≡ true)

  abbrev RestChecked : ValidatedRule F → ValidatedRule F → Type 0
  RestChecked v w =
      (w.name ≡ v.name)
      × (w.mac ≡ v.mac)
      × (w.metric ≡ v.metric)
      × (w.direction ≡ v.direction)
      × (w.trigger_threshold ≡ v.trigger_threshold)
      × (w.clear_threshold ≡ v.clear_threshold)
      × (pos 0 ≤ℤ w.for_duration_seconds)
      × (w.for_duration_seconds ≤ℤ pos 2592000)
      × (pos 1 ≤ℤ w.max_data_age_seconds)
      × (w.max_data_age_seconds ≤ℤ pos 31536000)
      × ((is_text "info" w.severity ≡ true)
          ⊎ (is_text "warning" w.severity ≡ true)
          ⊎ (is_text "critical" w.severity ≡ true))

  check_rest-RestChecked :
      (r : RuleRequest F) (v w : ValidatedRule F) → check_rest fl r v ≡ accepted w → RestChecked v w
  unfolding check_rest
  check_rest-RestChecked r v w h = ground arith

  abbrev Separated : Text → F → F → Type 0
  Separated direction trigger clear =
      ((is_text "above" direction && le trigger clear) ≡ false)
      × ((is_text "below" direction && le clear trigger) ≡ false)

  check_thresholds-RestChecked :
      (r : RuleRequest F) (name mac metric direction : Text) (trigger clear : F)
      (w : ValidatedRule F)
      → check_thresholds fl r name mac metric direction trigger clear ≡ accepted w
      → RestChecked (draft fl name mac metric direction trigger clear) w
        × (is_finite trigger ≡ true)
        × (is_finite clear ≡ true)
        × Separated direction trigger clear
  unfolding check_thresholds
  check_thresholds-RestChecked r name mac metric direction trigger clear w h =
      ground (arith, check_rest-RestChecked r (draft fl name mac metric direction trigger clear) w)

  -- An accepted rule has a name of 1 to 200 bytes, a MAC that is not empty, a known metric and severity,
  -- finite thresholds that the direction keeps strictly apart, and durations within the limits.
  pub validate_rule-IsWellFormed :
      (r : RuleRequest F) (v : ValidatedRule F) → validate_rule fl r ≡ accepted v → IsWellFormed v
  unfolding validate_rule
  validate_rule-IsWellFormed r v h = elim (Option-cases r.trigger_threshold) [
    | inl e ↦ absurd (ground (arith, e))
    | inr (trigger, t) ↦ elim (Option-cases r.clear_threshold) [
      | inl e ↦ absurd (ground (arith, e))
      | inr (clear, c) ↦ ground (
        arith,
        check_thresholds-RestChecked r (trim_space r.name) (lower (trim_space r.mac))
            (trim_space r.metric) (trim_space r.direction) trigger clear v,
      )
    ]
  ]

  -- Hysteresis: no value meets both the trigger and the clear condition of an accepted rule, so
  -- the observation that fires an alert does not resolve it as well.
  pub accepted-hysteresis :
      (laws : IsOrdered fl) (r : RuleRequest F) (v : ValidatedRule F) (value : F)
      → validate_rule fl r ≡ accepted v
      → (triggers fl (stored_rule v) value && clears fl (stored_rule v) value) ≡ false
  unfolding triggers clears stored_rule direction_of
  accepted-hysteresis laws r v value h =
      let w = validate_rule-IsWellFormed r v h in
      ground (
        arith,
        w.separated,
        not_both v.direction,
        laws.le_trans v.trigger_threshold value v.clear_threshold,
        laws.le_trans v.clear_threshold value v.trigger_threshold,
      )
