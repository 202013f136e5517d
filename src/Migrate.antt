-- ===== src/Migrate.antt =====
-- cmd/hm-db-migrate/main.go: how a migration is split into statements, and which migrations are
-- applied. The texts are scanned by code points; every character that the scan tests is ASCII, so
-- a scan by bytes sees the same.
pub mod Statements
pub mod Versions
use home_metrics.Base.{
  ℕ, zero, suc, Bool, true, false, List, [], ◌∷◌, ◌++◌, Option, none, some, ◌==◌, ◌&&◌, ◌||◌,
  if◌then◌else◌, length, take, drop,
}
use home_metrics.Base.Text.{Text, in_range, trim_space}

pub data MigrationError : Type 0 where
  unterminated_block_comment : MigrationError
  unterminated_dollar_quote : Text → MigrationError
  checksum_mismatch : ℕ → MigrationError
  database_error : MigrationError
  out_of_fuel : MigrationError

pub data Result {ℓ} (A : Type ℓ) : Type ℓ where
  ok : A → Result A
  err : MigrationError → Result A

-- Which of `inSingleQuote`, `inDoubleQuote`, `inLineComment`, `inBlockComment` and `dollarQuote` is
-- set: one at most, since each is set only where none is.
pub data Mode : Type 0 where
  plain single_quote double_quote line_comment block_comment : Mode
  dollar_quote : Text → Mode

abbrev pub starts_with : Text → Text → Bool
starts_with [] s = true
starts_with (m ∷ ms) [] = false
starts_with (m ∷ ms) (c ∷ s) = (m == c) && starts_with ms s

abbrev is_tag_char : ℕ → Bool
is_tag_char c = (c == b'_') || in_range b'a' b'z' c || in_range b'A' b'Z' c || in_range b'0' b'9' c

abbrev prefixed : ℕ → Option Text → Option Text
prefixed c none = none
prefixed c (some s) = some (c ∷ s)

-- The loop of `readDollarQuoteTag`, on the text after the first dollar sign.
unfoldable pub tag_loop : Text → Option Text
tag_loop [] = none
tag_loop (c ∷ s) =
    let more = tag_loop s in
    if c == b'$' then some (b'$' ∷ []) else if is_tag_char c then prefixed c more else none

unfoldable pub read_dollar_quote_tag : Text → Option Text
unfolding tag_loop
read_dollar_quote_tag [] = none
read_dollar_quote_tag (c ∷ s) = if c == b'$' then prefixed b'$' (tag_loop s) else none

-- What one turn of the loop of `splitSQLStatements` does: the mode after it, by how much it
-- moves the index, and whether it ends a statement.
pub record Turn : Type 0 where
  pub mode : Mode
  pub step : ℕ
  pub ends : Bool

abbrev on : Mode → ℕ → Turn
on mode step = record { mode = mode; step = step; ends = false }

abbrev open_tag : Option Text → Turn
open_tag none = on plain 1
open_tag (some tag) = on (dollar_quote tag) (length tag)

-- The turn at the character `c`, with `s` behind it.
unfoldable pub turn : Mode → ℕ → Text → Turn
unfolding read_dollar_quote_tag
turn line_comment c s = if c == 10 then on plain 1 else on line_comment 1
turn block_comment c s =
    if (c == b'*') && starts_with (b'/' ∷ []) s then on plain 2 else on block_comment 1
turn (dollar_quote tag) c s =
    if starts_with tag (c ∷ s) then on plain (length tag) else on (dollar_quote tag) 1
turn single_quote c s =
    if c == 39
    then (if starts_with (39 ∷ []) s then on single_quote 2 else on plain 1)
    else on single_quote 1
turn double_quote c s =
    if c == b'"'
    then (if starts_with (b'"' ∷ []) s then on double_quote 2 else on plain 1)
    else on double_quote 1
turn plain c s =
    if (c == b'-') && starts_with (b'-' ∷ []) s
    then on line_comment 2
    else if (c == b'/') && starts_with (b'*' ∷ []) s
    then on block_comment 2
    else if c == 39
    then on single_quote 1
    else if c == b'"'
    then on double_quote 1
    else if c == b'$'
    then open_tag (read_dollar_quote_tag (c ∷ s))
    else if c == b';'
    then record { mode = plain; step = 1; ends = true }
    else on plain 1

-- A statement is kept, trimmed, where it is not blank.
abbrev pub keep : Text → List Text → List Text
keep s rest = elim (trim_space s) [ [] ↦ rest | c ∷ cs ↦ (c ∷ cs) ∷ rest ]

-- What follows the loop; `current` is `sql[start:]`.
abbrev finish : Mode → Text → Result (List Text)
finish block_comment current = err unterminated_block_comment
finish (dollar_quote tag) current = err (unterminated_dollar_quote tag)
finish _ current = ok (keep current [])

abbrev kept_before : Text → Result (List Text) → Result (List Text)
kept_before s (ok rest) = ok (keep s rest)
kept_before s (err e) = err e

-- The loop; `current` is `sql[start:i]` and the last argument `sql[i:]`.
unfoldable pub split_loop : ℕ → Mode → Text → Text → Result (List Text)
unfolding turn
split_loop fuel mode current [] = finish mode current
split_loop zero mode current (c ∷ s) = err out_of_fuel
split_loop (suc fuel) mode current (c ∷ s) =
    let t = turn mode c s in
    let next = split_loop fuel t.mode [] (drop t.step (c ∷ s)) in
    let on_current =
      split_loop fuel t.mode (current ++ take t.step (c ∷ s)) (drop t.step (c ∷ s)) in
    if t.ends then kept_before current next else on_current

-- A turn for each character at most.
unfoldable pub split_sql_statements : Text → Result (List Text)
unfolding split_loop
split_sql_statements sql = split_loop (length sql) plain [] sql
