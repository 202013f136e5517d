-- ===== src/Migrate/Versions.antt =====
-- cmd/hm-db-migrate/main.go: `appliedMigration`, `applyMigration` and the loop of `main`.
pub mod Rerun
use home_metrics.Base.{
  ℕ, Bool, true, false, ◌≡◌, ◌≢◌, refl, sym, ap, subst, ◌∙◌, List, [], ◌∷◌, Option, none, some,
  Option-cases, Bool-cases, ◌⊎◌, inl, inr, ◌==◌, ◌||◌, ==_iff, if◌then◌else◌, All, arith,
}
use home_metrics.Base.Text.{Text, eq_text, eq_text_refl, eq_text→eq}
use home_metrics.Migrate.{
  MigrationError, Result, ok, err, checksum_mismatch, database_error, split_sql_statements,
}

pub record Migration : Type 0 where
  pub version : ℕ
  pub name : Text
  pub sql : Text
  pub checksum : Text

-- A row of `schema_migrations` without the time.
pub record VersionRow : Type 0 where
  pub version : ℕ
  pub name : Text
  pub checksum : Text

-- `SELECT checksum … WHERE version = $1`.
unfoldable pub checksum_of : ℕ → List VersionRow → Option Text
checksum_of v [] = none
checksum_of v (r ∷ rs) =
    let more = checksum_of v rs in if r.version == v then some r.checksum else more

-- Which of the calls of the database fail that a run makes for a migration; its own statements fail by
-- the function that executes them.
pub record Faults : Type 0 where
  pub select : Bool
  pub begin : Bool
  pub insert : Bool
  pub commit : Bool

unfoldable pub applied_migration : Bool → List VersionRow → Migration → Result Bool
unfolding checksum_of
applied_migration fails rows m =
    if fails then err database_error else elim (checksum_of m.version rows) [
      | none ↦ ok false
      | some c ↦ if eq_text c m.checksum then ok true else err (checksum_mismatch m.version)
    ]

abbrev pub row_of : Migration → VersionRow
row_of m = record { version = m.version; name = m.name; checksum = m.checksum }

-- Inserting a version that is there already breaks the primary key.
unfoldable pub insert_version : Migration → List VersionRow → Option (List VersionRow)
unfolding checksum_of
insert_version m rows = elim (checksum_of m.version rows) [
  | none ↦ some (row_of m ∷ rows)
  | some c ↦ none
]

-- `schema_migrations` beside the other tables.
pub record Database (D : Type 0) : Type 0 where
  pub tables : D
  pub versions : List VersionRow

-- `exec` runs one statement on the other tables, `none` where it fails; a transaction that fails
-- leaves everything as it was.
module _ {D : Type 0} (exec : Text → D → Option D) where
  unfoldable pub exec_all : List Text → D → Option D
  exec_all [] tables = some tables
  exec_all (s ∷ ss) tables = elim (exec s tables) [
    | none ↦ none
    | some tables' ↦ exec_all ss tables'
  ]

  -- The end of the transaction: the new row, and the commit.
  abbrev commit : Faults → D → Option (List VersionRow) → Result (Database D)
  commit f tables none = err database_error
  commit f tables (some versions) =
      if f.insert || f.commit
      then err database_error
      else ok record { tables = tables; versions = versions }

  unfoldable pub apply_migration : Faults → Migration → Database D → Result (Database D)
  unfolding split_sql_statements exec_all insert_version
  apply_migration f m db =
      if f.begin then err database_error else elim (split_sql_statements m.sql) [
        | err e ↦ err e
        | ok statements ↦ elim (exec_all statements db.tables) [
          | none ↦ err database_error
          | some tables ↦ commit f tables (insert_version m db.versions)
        ]
      ]

  -- The loop of `main`: the database that it leaves, and the error that ends the program; `faults` are
  -- those of each migration in this run.
  unfoldable pub migrate :
      (Migration → Faults) → List Migration → Database D → Database D × Option MigrationError
  unfolding applied_migration apply_migration
  migrate faults [] db = (db, none)
  migrate faults (m ∷ ms) db = elim (applied_migration (faults m).select db.versions m) [
    | err e ↦ (db, some e)
    | ok true ↦ migrate faults ms db
    | ok false ↦ elim (apply_migration (faults m) m db) [
      | err e ↦ (db, some e)
      | ok db' ↦ migrate faults ms db'
    ]
  ]
