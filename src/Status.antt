-- ===== src/Status.antt =====
-- internal/collectorstatus/status.go: what the collectors report of their targets, and the rows of
-- `collector_status` that the two SQL statements write. The table is a function from its key, which
-- is a normalized target.
pub mod History
use home_metrics.Base.{
  ℕ, ◌+◌, Bool, true, false, List, [], ◌∷◌, Option, none, some, ltb, ◌==◌, ◌&&◌, ◌||◌,
  if◌then◌else◌, length, take,
}
use home_metrics.Base.Time.{Time}
use home_metrics.Base.Text.{Text, codes, trim_space, eq_text}

abbrev pub max_error_length : ℕ
max_error_length = 2048

pub record Target : Type 0 where
  pub collector_name : Text
  pub target_type : Text
  pub target_key : Text

abbrev pub eq_target : Target → Target → Bool
eq_target a b =
    eq_text a.collector_name b.collector_name
    && eq_text a.target_type b.target_type
    && eq_text a.target_key b.target_key

abbrev pub is_empty_text : Text → Bool
is_empty_text [] = true
is_empty_text (c ∷ cs) = false

unfoldable pub normalized : Target → Target
normalized t =
    if is_empty_text (trim_space t.target_key) then record t { target_key = codes "default" } else t

pub record Row : Type 0 where
  pub last_attempt_at : Time
  pub last_success_at : Option Time
  pub last_data_at : Option Time
  pub first_failure_at : Option Time
  pub last_failure_at : Option Time
  pub last_error : Option Text
  pub consecutive_failures : ℕ
  pub updated_at : Time

abbrev pub Table : Type 0
Table = Target → Option Row

-- The row that `markSuccess` writes where there was none or `old`.
unfoldable pub success_row : Time → Bool → Option Row → Row
success_row now data_written none = record {
  last_attempt_at = now;
  last_success_at = some now;
  last_data_at = if data_written then some now else none;
  first_failure_at = none;
  last_failure_at = none;
  last_error = none;
  consecutive_failures = 0;
  updated_at = now;
}
success_row now data_written (some old) = record old {
  last_attempt_at = now;
  last_success_at = some now;
  last_data_at = if data_written then some now else old.last_data_at;
  first_failure_at = none;
  last_error = none;
  consecutive_failures = 0;
  updated_at = now;
}

abbrev pub is_null {ℓ} : {A : Type ℓ} → Option A → Bool
is_null none = true
is_null (some a) = false

-- The row that `MarkFailure` writes.
unfoldable pub failure_row : Time → Text → Option Row → Row
failure_row now message none = record {
  last_attempt_at = now;
  last_success_at = none;
  last_data_at = none;
  first_failure_at = some now;
  last_failure_at = some now;
  last_error = some message;
  consecutive_failures = 1;
  updated_at = now;
}
failure_row now message (some old) = record old {
  last_attempt_at = now;
  first_failure_at =
      if (old.consecutive_failures == 0) || is_null old.first_failure_at
      then some now
      else old.first_failure_at;
  last_failure_at = some now;
  last_error = some message;
  consecutive_failures = old.consecutive_failures + 1;
  updated_at = now;
}

-- The runes of a text are the elements of the list.
unfoldable pub truncate : Text → ℕ → Text
truncate value limit = if ltb limit (length value) then take limit value else value

unfoldable pub put : Target → (Option Row → Row) → Table → Table
put key write table t = if eq_target key t then some (write (table t)) else table t

-- One call of `Exec`: the table, and whether it returns an error. An error leaves the table as it was:
-- where the call fails, or where the statement cannot be carried out.
abbrev pub exec : Bool → Bool → Target → (Option Row → Row) → Table → Table × Bool
exec fails refused key write table =
    if fails || refused then (table, true) else (put key write table, false)

unfoldable pub mark_success : Bool → Time → Target → Bool → Table → Table × Bool
unfolding normalized put success_row
mark_success fails now target data_written =
    exec fails false (normalized target) (success_row now data_written)

-- `consecutive_failures` is an `integer` of four bytes, and adding to its greatest value is an error.
abbrev pub max_failures : ℕ
max_failures = 2147483647

abbrev pub is_full : Option Row → Bool
is_full none = false
is_full (some row) = row.consecutive_failures == max_failures

-- `failure.Error()`; `none` stands for a nil error.
abbrev pub message_of : Option Text → Text
message_of none = []
message_of (some m) = m

unfoldable pub mark_failure : Bool → Time → Target → Option Text → Table → Table × Bool
unfolding normalized put failure_row truncate
mark_failure fails now target failure table =
    exec fails (is_full (table (normalized target))) (normalized target)
      (failure_row now (truncate (message_of failure) max_error_length)) table
