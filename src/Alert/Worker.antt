-- ===== src/Alert/Worker.antt =====
-- cmd/hm-sensor-alert-worker/main.go: one evaluation cycle over the stored rules.
-- The tables that it writes are lists; each database call of a transaction may fail.
pub mod Log
use Prim.Native.String.{String}
use home_metrics.Base.{
  ℕ, Bool, true, false, ◌&&◌, not, Option, none, some, List, [], ◌∷◌, ◌==◌, if◌then◌else◌,
}
use home_metrics.Base.Float.{Float64}
use home_metrics.Base.Time.{Time}
use home_metrics.Base.Text.{Text, codes, eq_text}
use home_metrics.Sensor.{columns}
use home_metrics.Alert.{
  normal, no_data, Direction, EventType, Reason, Rule, State, Observation, Event, evaluate,
}

pub record DbRule (F : Type 0) : Type 0 where
  pub id : ℕ
  pub name : Text
  pub mac : Text
  pub metric : Text
  pub severity : Text
  pub device_enabled : Bool
  pub rule : Rule F

-- A row of sensor_alert_events: the event with a snapshot of its rule.
pub record EventRow (F : Type 0) : Type 0 where
  pub alert_rule_id : ℕ
  pub event_type : EventType
  pub reason : Reason
  pub rule_name : Text
  pub mac : Text
  pub metric : Text
  pub severity : Text
  pub direction : Direction
  pub trigger_threshold : F
  pub clear_threshold : F
  pub value : Option F
  pub value_at : Option Time
  pub occurred_at : Time

-- sensor_alert_states by rule, and sensor_alert_events with the newest row first.
pub record Store (F : Type 0) : Type 0 where
  pub states : List (ℕ × State F)
  pub events : List (EventRow F)

pub data WorkerError : Type 0 where
  unsupported_metric database_error : WorkerError

-- Which calls of a transaction fail.
pub record Faults : Type 0 where
  pub begin : Bool
  pub load_state : Bool
  pub load_observation : Bool
  pub save_state : Bool
  pub insert_event : Bool
  pub commit : Bool

pub data Tx {ℓ} (A : Type ℓ) : Type ℓ where
  ok : A → Tx A
  failed : WorkerError → Tx A

-- Shut, so that a rule for `◌>>=◌` finds its parts.
infixl 5 ◌>>=◌ ◌>>◌
unfoldable pub ◌>>=◌ {ℓ κ} : {A : Type ℓ} {B : Type κ} → Tx A → (A → Tx B) → Tx B
ok a >>= f = f a
failed e >>= f = failed e

abbrev pub ◌>>◌ {ℓ} : {B : Type ℓ} → Tx (Unit {0}) → Tx B → Tx B
m >> k = m >>= λ _. k

-- A database call with its result.
abbrev pub call {ℓ} : {A : Type ℓ} → Bool → A → Tx A
call true a = failed database_error
call false a = ok a

find_column : Text → List (String × String) → Option String
find_column metric [] = none
find_column metric ((k, c) ∷ rest) =
    if eq_text (codes k) metric then some c else find_column metric rest

unfoldable pub column_of : Text → Tx String
unfolding find_column
column_of metric = elim (find_column metric columns) [
  | none ↦ failed unsupported_metric
  | some c ↦ ok c
]

module _ {F : Type 0} where
  -- The state of a rule that was never evaluated.
  abbrev pub initial_state : State F
  initial_state = record {
    status = normal;
    pending_since = none;
    fired_at = none;
    resolved_at = none;
    last_value = none;
    last_value_at = none;
    last_evaluated_at = none;
    evaluation_status = no_data;
  }

  unfoldable pub load_state : ℕ → List (ℕ × State F) → State F
  load_state id [] = initial_state
  load_state id ((i, s) ∷ rows) = if i == id then s else load_state id rows

  -- INSERT … ON CONFLICT (alert_rule_id) DO UPDATE of every column.
  pub save_state : ℕ → State F → List (ℕ × State F) → List (ℕ × State F)
  save_state id s [] = (id, s) ∷ []
  save_state id s ((i, t) ∷ rows) =
      if i == id then (id, s) ∷ rows else (i, t) ∷ save_state id s rows

  abbrev event_row : DbRule F → Event F → Time → EventRow F
  event_row r e occurred_at = record {
    alert_rule_id = r.id;
    event_type = e.kind;
    reason = e.reason;
    rule_name = r.name;
    mac = r.mac;
    metric = r.metric;
    severity = r.severity;
    direction = r.rule.direction;
    trigger_threshold = r.rule.trigger_threshold;
    clear_threshold = r.rule.clear_threshold;
    value = e.value;
    value_at = e.value_at;
    occurred_at = occurred_at;
  }

  abbrev insert_event : DbRule F → Option (Event F) → Time → List (EventRow F) → List (EventRow F)
  insert_event r none now rows = rows
  insert_event r (some e) now rows = event_row r e now ∷ rows

  abbrev pub has_event : Option (Event F) → Bool
  has_event none = false
  has_event (some e) = true

-- `latest mac column` is the result of the query on sensor_minute.
module _ (fl : Float64) (latest : Text → String → Option (Observation fl.F)) where
  open fl use {F}

  pub transaction : Faults → DbRule F → Time → Store F → Tx (Store F)
  transaction faults r now store = do
    column ← column_of r.metric
    call faults.begin tt
    state ← call faults.load_state (load_state r.id store.states)
    let is_live = r.rule.enabled && r.device_enabled
    observation ← (if is_live then call faults.load_observation (latest r.mac column) else ok none)
    let (next, event) = evaluate fl now r.rule r.device_enabled state observation
    call faults.save_state tt
    call (has_event event && faults.insert_event) tt
    call faults.commit (record {
      states = save_state r.id next store.states;
      events = insert_event r event now store.events;
    })

  -- A transaction that fails is rolled back.
  pub evaluate_db_rule : Faults → DbRule F → Time → Store F → Store F × Option WorkerError
  evaluate_db_rule faults r now store = elim (transaction faults r now store) [
    | ok store' ↦ (store', none)
    | failed e ↦ (store, some e)
  ]

  abbrev prepend : Option WorkerError → List WorkerError → List WorkerError
  prepend none es = es
  prepend (some e) es = e ∷ es

  -- The loop over the rules; `faults` gives the failures of each rule's transaction.
  pub evaluate_all : (ℕ → Faults) → List (DbRule F) → Time → Store F → Store F × List WorkerError
  evaluate_all faults [] now store = (store, [])
  evaluate_all faults (r ∷ rs) now store =
      let (store', e) = evaluate_db_rule (faults r.id) r now store in
      let (store'', es) = evaluate_all faults rs now store' in (store'', prepend e es)

  -- `rules` is `none` where `loadRules` fails.
  pub evaluate_rules :
      (ℕ → Faults) → Option (List (DbRule F)) → Time → Store F → Store F × List WorkerError
  evaluate_rules faults none now store = (store, database_error ∷ [])
  evaluate_rules faults (some rs) now store = evaluate_all faults rs now store
