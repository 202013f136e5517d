-- ===== src/Tests/Migrations.antt =====
-- Two statements with a comment and a quoted semicolon, and a run over one migration.
use home_metrics.Base.{◌≢◌, true, false, ℕ, ◌+◌, ◌≡◌, refl, List, [], ◌∷◌, Option, none, some}
use home_metrics.Base.Text.{Text, codes, is_space, trim_left, trim_right, trim_space}
use home_metrics.Migrate.{
  err, out_of_fuel, ok, turn, tag_loop, read_dollar_quote_tag, split_loop, split_sql_statements,
}
use home_metrics.Migrate.Statements.{
  joined, kept, split_sql_statements-ends, split_sql_statements-pieces,
}
use home_metrics.Migrate.Versions.{
  Migration, Faults, Database, checksum_of, applied_migration, insert_version, exec_all,
  apply_migration, migrate, row_of,
}
use home_metrics.Migrate.Versions.Rerun.{migrate_idem}

abbrev sql : Text
sql = codes "a ';' -- b;\n; $t$;$t$ ;"

abbrev statements : List Text
statements = codes "a ';' -- b;" ∷ codes "$t$;$t$" ∷ []

is_split : split_sql_statements sql ≡ ok statements
unfolding split_sql_statements split_loop turn read_dollar_quote_tag tag_loop trim_space trim_left
    trim_right is_space
is_split = refl

split_sql_statements-ends_example : split_sql_statements sql ≢ err out_of_fuel
split_sql_statements-ends_example = split_sql_statements-ends sql

split_sql_statements-pieces_example :
    (p : Text) × (ps : List Text) × (joined p ps ≡ sql) × (statements ≡ kept (p ∷ ps))
split_sql_statements-pieces_example = split_sql_statements-pieces sql statements is_split

-- Each statement counts.
abbrev count : Text → ℕ → Option ℕ
count s n = some (n + 1)

abbrev first : Migration
first = record { version = 1; name = codes "init"; sql = sql; checksum = codes "c0" }

abbrev fresh : Database ℕ
fresh = record { tables = 0; versions = [] }

abbrev migrated : Database ℕ
migrated = record { tables = 2; versions = row_of first ∷ [] }

abbrev no_faults : Migration → Faults
no_faults m = record { select = false; begin = false; insert = false; commit = false }

-- A run that could neither insert nor commit.
abbrev read_only : Migration → Faults
read_only m = record { select = false; begin = false; insert = true; commit = true }

is_migrated : migrate count no_faults (first ∷ []) fresh ≡ (migrated, none)
unfolding migrate applied_migration apply_migration exec_all insert_version checksum_of
    split_sql_statements split_loop turn read_dollar_quote_tag tag_loop trim_space trim_left
    trim_right is_space
is_migrated = refl

migrate_idem_example : migrate count read_only (first ∷ []) migrated ≡ (migrated, none)
migrate_idem_example =
    migrate_idem count no_faults read_only (first ∷ []) fresh migrated is_migrated (refl, tt)
