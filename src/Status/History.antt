-- ===== src/Status/History.antt =====
-- internal/collectorstatus/status.go: sequences of reports, and what they add up to for a target.
use home_metrics.Base.{
  ℕ, suc, ◌+◌, ◌≡◌, refl, ◌∙◌, List, [], ◌∷◌, Option, none, some, Bool, true, false, arith, ◌==◌,
  ◌||◌, ◌&&◌, and_true, ap, if◌then◌else◌, Bool-cases, inl, inr,
}
use home_metrics.Base.Time.{Time}
use home_metrics.Base.Text.{Text, eq_text, eq_text→eq}
use home_metrics.Status.{
  Target, eq_target, normalized, Row, Table, is_null, success_row, failure_row, truncate,
  message_of, max_error_length, put, exec, max_failures, is_full, mark_success, mark_failure,
}

-- A call of `MarkSuccess`, of `MarkDataSuccess` or of `MarkFailure`, at a time, and whether the call of
-- the database in it fails.
pub data Outcome : Type 0 where
  success : Outcome
  data_success : Outcome
  failure : Option Text → Outcome

pub record Report : Type 0 where
  pub at : Time
  pub target : Target
  pub outcome : Outcome
  pub fails : Bool

unfoldable pub apply : Report → Table → Table × Bool
unfolding mark_success mark_failure
apply r table = elim r.outcome [
  | success ↦ mark_success r.fails r.at r.target false table
  | data_success ↦ mark_success r.fails r.at r.target true table
  | failure e ↦ mark_failure r.fails r.at r.target e table
]

-- The table after the reports, the newest first.
unfoldable pub table_after : List Report → Table
unfolding apply
table_after [] = λ t. none
table_after (r ∷ rs) = (apply r (table_after rs)).0

abbrev is_failure : Outcome → Bool
is_failure (failure e) = true
is_failure _ = false

abbrev is_success : Outcome → Bool
is_success (failure e) = false
is_success _ = true

abbrev is_data : Outcome → Bool
is_data data_success = true
is_data _ = false

-- The time of the newest report that a test accepts.
abbrev newest : (Outcome → Bool) → List Report → Option Time
newest test [] = none
newest test (r ∷ rs) = let more = newest test rs in if test r.outcome then some r.at else more

-- How many failures were reported since the last success, and when the first of them was.
abbrev failing_run : List Report → ℕ
failing_run [] = 0
failing_run (r ∷ rs) = let more = failing_run rs in if is_failure r.outcome then suc more else 0

-- Whether a report comes to nothing after the reports `rs`: the database fails, or a failure would be
-- counted beyond the greatest count.
abbrev is_lost : Report → List Report → Bool
is_lost r rs = r.fails || (is_failure r.outcome && (failing_run rs == max_failures))

-- The reports on the target of a key that took effect.
unfoldable pub reports_on : Target → List Report → List Report
reports_on key [] = []
reports_on key (r ∷ rs) =
    let more = reports_on key rs in
    if eq_target (normalized r.target) key
    then (if is_lost r more then more else r ∷ more)
    else more

abbrev failing_since : List Report → Option Time
failing_since [] = none
failing_since (r ∷ rs) =
    let more = failing_since rs in
    if is_failure r.outcome then elim more [ none ↦ some r.at | some t ↦ some t ] else none

abbrev error_of : Outcome → Option Text
error_of (failure e) = some (truncate (message_of e) max_error_length)
error_of _ = none

-- What the reports on one target, the newest first, add up to.
unfoldable pub summary : List Report → Option Row
summary [] = none
summary (r ∷ rs) = some record {
  last_attempt_at = r.at;
  last_success_at = newest is_success (r ∷ rs);
  last_data_at = newest is_data (r ∷ rs);
  first_failure_at = failing_since (r ∷ rs);
  last_failure_at = newest is_failure (r ∷ rs);
  last_error = error_of r.outcome;
  consecutive_failures = failing_run (r ∷ rs);
  updated_at = r.at;
}

abbrev write : Time → Outcome → Option Row → Row
write now success old = success_row now false old
write now data_success old = success_row now true old
write now (failure e) old = failure_row now (truncate (message_of e) max_error_length) old

first_failure :
    (now : Time) (n : ℕ) (since : Option Time)
    → (n == 0) ≡ is_null since
    → (if (n == 0) || is_null since then some now else since)
      ≡ elim since as (λ x. Option Time) [ none ↦ some now | some t ↦ some t ]
first_failure now n none h = rw h refl
first_failure now n (some t) h = rw h refl

-- While no failure is running there is no time of a first one, and the other way round.
run_and_since : (rs : List Report) → (failing_run rs == 0) ≡ is_null (failing_since rs)
run_and_since [] = ground arith
run_and_since (r ∷ rs) =
    elim r.outcome
      as (λ o.
        ((if is_failure o then suc (failing_run rs) else 0) == 0)
        ≡ is_null (
            if is_failure o
            then elim (failing_since rs) as (λ x. Option Time) [
              | none ↦ some r.at
              | some t ↦ some t
            ]
            else none)) [ success ↦ refl | data_success ↦ refl | failure e ↦ ground arith ]

add_one : (n : ℕ) → n + 1 ≡ suc n
add_one n = omega arith

write-summary :
    (r : Report) (rs : List Report) → some (write r.at r.outcome (summary rs)) ≡ summary (r ∷ rs)
unfolding summary success_row failure_row
write-summary r rs = outcome_of r.outcome rs
  where
    outcome_of :
        (o : Outcome) (rs : List Report)
        → some (write r.at o (summary rs)) ≡ summary (record r { outcome = o } ∷ rs)
    outcome_of success [] = refl
    outcome_of success (s ∷ rs) = refl
    outcome_of data_success [] = refl
    outcome_of data_success (s ∷ rs) = refl
    outcome_of (failure e) [] = refl
    outcome_of (failure e) (s ∷ rs) =
        rw
          (
            first_failure r.at (failing_run (s ∷ rs)) (failing_since (s ∷ rs))
                (run_and_since (s ∷ rs)),
            add_one (failing_run (s ∷ rs)),
          )
          refl

-- The count in the row is full exactly if the failures counted are.
is_full-summary : (rs : List Report) → is_full (summary rs) ≡ (failing_run rs == max_failures)
unfolding summary
is_full-summary [] = refl
is_full-summary (r ∷ rs) = refl

abbrev refused : Outcome → Option Row → Bool
refused o old = is_failure o && is_full old

exec-at :
    (fails refuses : Bool) (at key : Target) (make : Option Row → Row) (table : Table)
    → (exec fails refuses at make table).0 key ≡ (
        if eq_target at key
        then (if fails || refuses then table key else some (make (table key)))
        else table key)
unfolding put
exec-at fails refuses at key make table = ground arith

same_target : (a b : Target) → eq_target a b ≡ true → a ≡ b
same_target a b h =
    let p =
      and_true (eq_text a.collector_name b.collector_name && eq_text a.target_type b.target_type)
        (eq_text a.target_key b.target_key) h in
    let q =
      and_true (eq_text a.collector_name b.collector_name) (eq_text a.target_type b.target_type)
        p.0 in
    ap (λ n. record a { collector_name = n }) (eq_text→eq a.collector_name b.collector_name q.0)
    ∙ ap (λ n. record a { collector_name = b.collector_name; target_type = n })
        (eq_text→eq a.target_type b.target_type q.1)
    ∙ ap (λ n. record b { target_key = n }) (eq_text→eq a.target_key b.target_key p.1)

apply-at :
    (r : Report) (table : Table) (key : Target)
    → (apply r table).0 key ≡ (
        if eq_target (normalized r.target) key
        then (if r.fails || refused r.outcome (table key)
            then table key
            else some (write r.at r.outcome (table key)))
        else table key)
unfolding apply mark_success mark_failure
apply-at r table key = outcome_of r.outcome
  where
    of_failure :
        (e : Option Text) (b : Bool)
        → eq_target (normalized r.target) key ≡ b
        → (mark_failure r.fails r.at r.target e table).0 key ≡ (
            if b
            then (if r.fails || is_full (table key)
                then table key
                else some (write r.at (failure e) (table key)))
            else table key)
    of_failure e true h =
        let make : Option Row → Row = failure_row r.at (truncate (message_of e) max_error_length) in
        exec-at r.fails (is_full (table (normalized r.target))) (normalized r.target) key make table
        ∙ rw h (rw (same_target (normalized r.target) key h) refl)
    of_failure e false h =
        exec-at r.fails (is_full (table (normalized r.target))) (normalized r.target) key
          (failure_row r.at (truncate (message_of e) max_error_length)) table
        ∙ rw h refl

    outcome_of :
        (o : Outcome)
        → (apply (record r { outcome = o }) table).0 key ≡ (
            if eq_target (normalized r.target) key
            then (if r.fails || refused o (table key)
                then table key
                else some (write r.at o (table key)))
            else table key)
    outcome_of success =
        exec-at r.fails false (normalized r.target) key (success_row r.at false) table
    outcome_of data_success =
        exec-at r.fails false (normalized r.target) key (success_row r.at true) table
    outcome_of (failure e) = of_failure e (eq_target (normalized r.target) key) refl

-- A report on the key, after those that took effect.
taken :
    (r : Report) (rs : List Report) (old : Option Row)
    → old ≡ summary rs
    → (if r.fails || refused r.outcome old then old else some (write r.at r.outcome old))
      ≡ summary (if is_lost r rs then rs else r ∷ rs)
taken r rs old h =
    rw h (
      chosen (is_lost r rs) (ap (λ b. r.fails || (is_failure r.outcome && b)) (is_full-summary rs)))
  where
    chosen :
        (b : Bool)
        → (r.fails || refused r.outcome (summary rs)) ≡ b
        → (if r.fails || refused r.outcome (summary rs)
            then summary rs
            else some (write r.at r.outcome (summary rs)))
          ≡ summary (if b then rs else r ∷ rs)
    chosen true e = rw e refl
    chosen false e = rw e (write-summary r rs)

-- After any reports on any targets, with any of their statements failing, the row that the table has for
-- a key is the summary of the reports on that key that took effect: those whose statement did not fail
-- and whose failure does not exceed the greatest count of the column, 2147483647. There is no row without
-- one, `consecutive_failures` counts the failures since the last success and `first_failure_at` is the
-- time of the first of them, and each of the other times is that of the newest report of its kind.
pub table_after-summary :
    (rs : List Report) (key : Target) → table_after rs key ≡ summary (reports_on key rs)
unfolding table_after reports_on
table_after-summary [] key = unfold summary in refl
table_after-summary (r ∷ rs) key =
    apply-at r (table_after rs) key ∙ elim (Bool-cases (eq_target (normalized r.target) key)) [
      | inl e ↦ rw e (taken r (reports_on key rs) (table_after rs key) (table_after-summary rs key))
      | inr e ↦ rw e (table_after-summary rs key)
    ]
