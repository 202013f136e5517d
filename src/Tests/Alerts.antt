-- ===== src/Tests/Alerts.antt =====
-- A rule on a temperature that fires after a minute above 30 degrees, and its request.
use home_metrics.Base.{ℕ, ◌*◌, ◌≡◌, refl, true, false, ◌&&◌, some, [], ◌∷◌}
use home_metrics.Base.Int.{ℤ, pos, leb_ℤ}
use home_metrics.Base.Time.{elapsed}
use home_metrics.Base.Text.{codes, trim_space, trim_left, trim_right, eq_text, to_lower, is_space}
use home_metrics.Alert.{
  above, fired, Rule, State, Observation, is_firing, evaluate, observe, dispatch, on_normal,
  on_pending, triggers, clears,
}
use home_metrics.Alert.Events.{kind_of, boundary, evaluate-event}
use home_metrics.Alert.Sustained.{Tick, Streak, onset, follow, is_compared, fired-sustained}
use home_metrics.Alert.Rules.{
  RuleRequest, ValidatedRule, accepted, byte_length, has_column, has_key, check_rest,
  check_thresholds, validate_rule,
}
use home_metrics.Alert.Rules.Hysteresis.{stored_rule, accepted-hysteresis}
use home_metrics.Alert.Worker.{DbRule, Store, Faults, load_state, initial_state, evaluate_all}
use home_metrics.Alert.Worker.Log.{IsCoherent, kinds_of, evaluate_all-IsCoherent}
use home_metrics.Sensor.{columns}
use home_metrics.Tests.Integers.{integers, integers-IsOrdered}

abbrev seconds : ℕ → ℕ
seconds n = n * 1_000_000_000

abbrev hot : Rule ℤ
hot = record {
  direction = above;
  trigger_threshold = pos 30;
  clear_threshold = pos 25;
  for_duration = pos (seconds 60);
  max_data_age = pos (seconds 300);
  enabled = true;
}

abbrev calm : State ℤ
calm = initial_state

abbrev at : ℕ → ℕ → Observation ℤ
at n value = record { time = seconds n; value = pos value }

abbrev tick : ℕ → ℕ → Tick integers hot
tick n value = record { now = seconds n; device_enabled = true; observation = some (at n value) }

evaluate-event_example :
    kind_of (evaluate integers (seconds 1000) hot true calm (some (at 1000 31))).1
    ≡ boundary false
        (is_firing (evaluate integers (seconds 1000) hot true calm (some (at 1000 31))).0.status)
evaluate-event_example = evaluate-event integers (seconds 1000) hot true calm (some (at 1000 31))

fires :
    kind_of
      (evaluate integers
        (seconds 1060)
        hot
        true
        (follow integers hot calm [] (tick 940 20 ∷ tick 1000 31 ∷ [])).0
        (some (at 1060 32))).1
    ≡ some fired
unfolding follow is_compared evaluate observe dispatch on_normal on_pending triggers elapsed
fires = refl

fired-sustained_example :
    let (s, h) = follow integers hot calm [] (tick 940 20 ∷ tick 1000 31 ∷ []) in
    Streak integers hot (onset integers hot s (at 1060 32)) (at 1060 32 ∷ h)
    × (leb_ℤ hot.for_duration (elapsed (seconds 1060) (onset integers hot s (at 1060 32))) ≡ true)
fired-sustained_example =
    fired-sustained integers hot calm (tick 940 20 ∷ tick 1000 31 ∷ []) (seconds 1060) true
      (at 1060 32) (λ e. cc) fires

abbrev request : RuleRequest ℤ
request = record {
  name = codes " too hot ";
  mac = codes "AA:BB:CC:DD:EE:FF";
  metric = codes "temperature_c";
  direction = codes "above";
  trigger_threshold = some (pos 30);
  clear_threshold = some (pos 25);
  for_duration_seconds = some (pos 60);
  max_data_age_seconds = some (pos 300);
  severity = codes "warning";
  enabled = some true;
}

abbrev rule : ValidatedRule ℤ
rule = record {
  name = codes "too hot";
  mac = codes "aa:bb:cc:dd:ee:ff";
  metric = codes "temperature_c";
  direction = codes "above";
  trigger_threshold = pos 30;
  clear_threshold = pos 25;
  for_duration_seconds = pos 60;
  max_data_age_seconds = pos 300;
  severity = codes "warning";
  enabled = true;
}

is_accepted : validate_rule integers request ≡ accepted rule
unfolding validate_rule check_thresholds check_rest has_column has_key byte_length columns
    trim_space trim_left trim_right eq_text to_lower is_space
is_accepted = refl

accepted-hysteresis_example :
    (triggers integers (stored_rule rule) (pos 28) && clears integers (stored_rule rule) (pos 28))
    ≡ false
accepted-hysteresis_example =
    accepted-hysteresis integers integers-IsOrdered request rule (pos 28) is_accepted

abbrev no_faults : ℕ → Faults
no_faults id = record {
  begin = false;
  load_state = false;
  load_observation = false;
  save_state = false;
  insert_event = false;
  commit = false;
}

abbrev db_rule : DbRule ℤ
db_rule = record {
  id = 7;
  name = rule.name;
  mac = rule.mac;
  metric = rule.metric;
  severity = rule.severity;
  device_enabled = true;
  rule = record hot { for_duration = pos 0 };
}

abbrev empty_store : Store ℤ
empty_store = record { states = []; events = [] }

empty_store-IsCoherent : IsCoherent empty_store
unfolding load_state kinds_of
empty_store-IsCoherent id = refl

evaluate_all-IsCoherent_example :
    IsCoherent
      (evaluate_all integers
        (λ mac column. some (at 1000 31))
        no_faults
        (db_rule ∷ [])
        (seconds 1001)
        empty_store).0
evaluate_all-IsCoherent_example =
    evaluate_all-IsCoherent integers (λ mac column. some (at 1000 31)) no_faults (db_rule ∷ [])
      (seconds 1001) empty_store empty_store-IsCoherent
