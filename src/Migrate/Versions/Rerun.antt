-- ===== src/Migrate/Versions/Rerun.antt =====
-- cmd/hm-db-migrate/main.go: a second run over the same migrations.
use home_metrics.Base.{
  ℕ, Bool, true, false, ◌≡◌, refl, sym, ap, subst, ◌∙◌, List, [], ◌∷◌, Option, none, some,
  Option-cases, Bool-cases, ◌⊎◌, inl, inr, ◌==◌, ◌||◌, ==_iff, All, arith,
}
use home_metrics.Base.Text.{Text, eq_text_refl, eq_text→eq}
use home_metrics.Migrate.{MigrationError, Result, ok, err, split_sql_statements}
use home_metrics.Migrate.Versions.{
  Migration, Faults, VersionRow, checksum_of, applied_migration, row_of, insert_version, Database,
  exec_all, commit, apply_migration, migrate,
}

-- A version's checksum stays as it is once it is stored.
unfoldable IsKept : List VersionRow → List VersionRow → Type 0
IsKept rows rows' = (v : ℕ) (c : Text) → checksum_of v rows ≡ some c → checksum_of v rows' ≡ some c

insert_version-some :
    (m : Migration) (rows rows' : List VersionRow)
    → insert_version m rows ≡ some rows'
    → (checksum_of m.version rows ≡ none) × (rows' ≡ row_of m ∷ rows)
unfolding insert_version
insert_version-some m rows rows' h = elim (Option-cases (checksum_of m.version rows)) [
  | inl e ↦ (e, cc)
  | inr (c, e) ↦ absurd (stored c e)
]
  where
    stored : (c : Text) → checksum_of m.version rows ≡ some c → ⊥
    stored c e = cc

row_added-IsKept :
    (m : Migration) (rows : List VersionRow)
    → checksum_of m.version rows ≡ none
    → IsKept rows (row_of m ∷ rows) × (checksum_of m.version (row_of m ∷ rows) ≡ some m.checksum)
unfolding IsKept checksum_of
row_added-IsKept m rows new = (kept, ground arith)
  where
    kept :
        (v : ℕ) (c : Text) → checksum_of v rows ≡ some c → checksum_of v (row_of m ∷ rows) ≡ some c
    kept v c e = elim (Bool-cases (m.version == v)) [
      | inl same ↦ absurd (clash v c e ((==_iff m.version v).0 same))
      | inr other ↦ rw other e
    ]
      where
        clash : (v : ℕ) (c : Text) → checksum_of v rows ≡ some c → m.version ≡ v → ⊥
        clash v c e same = cc

insert_version-IsKept :
    (m : Migration) (rows rows' : List VersionRow)
    → insert_version m rows ≡ some rows'
    → IsKept rows rows' × (checksum_of m.version rows' ≡ some m.checksum)
insert_version-IsKept m rows rows' h =
    let (new, added) = insert_version-some m rows rows' h in
    subst (λ r. IsKept rows r × (checksum_of m.version r ≡ some m.checksum)) (sym added)
      (row_added-IsKept m rows new)

Result-cases :
    {A : Type 0} (r : Result A) → ((a : A) × (r ≡ ok a)) ⊎ ((e : MigrationError) × (r ≡ err e))
Result-cases (ok a) = inl (a, refl)
Result-cases (err e) = inr (e, refl)

module _ {D : Type 0} (exec : Text → D → Option D) where
  commit-ok :
      (f : Faults) (tables : D) (r : Option (List VersionRow)) (db' : Database D)
      → commit exec f tables r ≡ ok db'
      → r ≡ some db'.versions
  commit-ok f tables none db' h = cc
  commit-ok f tables (some versions) db' h = elim (Bool-cases (f.insert || f.commit)) [
    | inl e ↦ absurd (ground (arith, e))
    | inr e ↦ ap some (ground (arith, e))
  ]

  apply_migration-ok :
      (f : Faults) (m : Migration) (db db' : Database D)
      → apply_migration exec f m db ≡ ok db'
      → insert_version m db.versions ≡ some db'.versions
  unfolding apply_migration
  apply_migration-ok f m db db' h = elim (Bool-cases f.begin) [
    | inl b ↦ absurd (ground (arith, b))
    | inr b ↦ elim (Result-cases (split_sql_statements m.sql)) [
      | inr (e, p) ↦ absurd (ground (arith, b, p))
      | inl (ss, p) ↦ elim (Option-cases (exec_all exec ss db.tables)) [
        | inl q ↦ absurd (ground (arith, b, p, q))
        | inr (tables, q) ↦
            commit-ok f tables (insert_version m db.versions) db' (ground (arith, b, p, q))
      ]
    ]
  ]

  -- The version of a migration is stored with the checksum that it has.
  abbrev IsApplied : List VersionRow → Migration → Type 0
  IsApplied rows m = checksum_of m.version rows ≡ some m.checksum

  applied_migration-true :
      (fails : Bool) (rows : List VersionRow) (m : Migration)
      → applied_migration fails rows m ≡ ok true
      → IsApplied rows m
  unfolding applied_migration
  applied_migration-true true rows m h = absurd (ground arith)
  applied_migration-true false rows m h = elim (Option-cases (checksum_of m.version rows)) [
    | inl e ↦ absurd (ground (arith, e))
    | inr (c, e) ↦ e ∙ ap some (eq_text→eq c m.checksum (ground (arith, e)))
  ]

  applied_migration-IsApplied :
      (rows : List VersionRow) (m : Migration)
      → IsApplied rows m
      → applied_migration false rows m ≡ ok true
  unfolding applied_migration
  applied_migration-IsApplied rows m h =
      rw (h, applied_migration) (rw (eq_text_refl m.checksum) refl)

  migrate-checked :
      (faults : Migration → Faults) (m : Migration) (ms : List Migration) (db : Database D)
      (e : MigrationError)
      → applied_migration (faults m).select db.versions m ≡ err e
      → (migrate exec faults (m ∷ ms) db).1 ≡ some e
  unfolding migrate
  migrate-checked faults m ms db e p = rw (p, migrate) refl

  migrate-skipped :
      (faults : Migration → Faults) (m : Migration) (ms : List Migration) (db : Database D)
      → applied_migration (faults m).select db.versions m ≡ ok true
      → migrate exec faults (m ∷ ms) db ≡ migrate exec faults ms db
  unfolding migrate
  migrate-skipped faults m ms db p = rw (p, migrate) refl

  migrate-failed :
      (faults : Migration → Faults) (m : Migration) (ms : List Migration) (db : Database D)
      (e : MigrationError)
      → applied_migration (faults m).select db.versions m ≡ ok false
      → apply_migration exec (faults m) m db ≡ err e
      → (migrate exec faults (m ∷ ms) db).1 ≡ some e
  unfolding migrate
  migrate-failed faults m ms db e p q = rw (p, migrate) (rw q refl)

  migrate-done :
      (faults : Migration → Faults) (m : Migration) (ms : List Migration) (db next : Database D)
      → applied_migration (faults m).select db.versions m ≡ ok false
      → apply_migration exec (faults m) m db ≡ ok next
      → migrate exec faults (m ∷ ms) db ≡ migrate exec faults ms next
  unfolding migrate
  migrate-done faults m ms db next p q = rw (p, migrate) (rw q refl)

  no_error :
      (r : Database D × Option MigrationError) (db' : Database D) (e : MigrationError)
      → r ≡ (db', none)
      → r.1 ≡ some e
      → ⊥
  no_error r db' e h k = cc

  unfoldable IsDone : Database D → Database D → List Migration → Type 0
  IsDone db db' ms = IsKept db.versions db'.versions × All (IsApplied db'.versions) ms

  migrate-IsDone :
      (faults : Migration → Faults) (ms : List Migration) (db db' : Database D)
      → migrate exec faults ms db ≡ (db', none)
      → IsDone db db' ms
  unfolding migrate IsKept IsDone
  migrate-IsDone faults [] db db' h = subst (λ d. IsDone db d []) (ap (λ p. p.0) h) (λ v c e. e, tt)
  migrate-IsDone faults (m ∷ ms) db db' h =
      elim (Result-cases (applied_migration (faults m).select db.versions m)) [
        | inr (e, p) ↦ absurd (
            no_error (migrate exec faults (m ∷ ms) db) db' e h (migrate-checked faults m ms db e p))
        | inl (true, p) ↦
            let (kept, rest) =
              migrate-IsDone faults ms db db' (sym (migrate-skipped faults m ms db p) ∙ h) in
            (
              kept,
              (
                kept m.version m.checksum
                    (applied_migration-true (faults m).select db.versions m p),
                rest,
              ),
            )
        | inl (false, p) ↦ elim (Result-cases (apply_migration exec (faults m) m db)) [
          | inr (e, q) ↦ absurd (
              no_error (migrate exec faults (m ∷ ms) db) db' e h
                (migrate-failed faults m ms db e p q))
          | inl (next, q) ↦
              let (kept, rest) =
                migrate-IsDone faults ms next db'
                  (sym (migrate-done faults m ms db next p q) ∙ h) in
              let (first, stored) =
                insert_version-IsKept m db.versions next.versions
                  (apply_migration-ok (faults m) m db next q) in
              ((λ v c e. kept v c (first v c e)), (kept m.version m.checksum stored, rest))
        ]
      ]

  -- The run can read the version of every migration.
  abbrev pub CanRead : (Migration → Faults) → List Migration → Type 0
  CanRead faults ms = All (λ m. (faults m).select ≡ false) ms

  migrate-skips :
      (faults : Migration → Faults) (ms : List Migration) (db : Database D)
      → CanRead faults ms
      → All (IsApplied db.versions) ms
      → migrate exec faults ms db ≡ (db, none)
  unfolding migrate
  migrate-skips faults [] db k h = refl
  migrate-skips faults (m ∷ ms) db k h =
      rw (k.0, migrate)
        (rw (applied_migration-IsApplied db.versions m h.0) (migrate-skips faults ms db k.1 h.1))

  -- If a run over the migrations ends without an error, whatever could have failed, then a second run on
  -- the database that it left, in which the version of each migration can be read, ends without an error
  -- as well, executes no statement and changes nothing.
  pub migrate_idem :
      (faults again : Migration → Faults) (ms : List Migration) (db db' : Database D)
      → migrate exec faults ms db ≡ (db', none)
      → CanRead again ms
      → migrate exec again ms db' ≡ (db', none)
  unfolding IsDone
  migrate_idem faults again ms db db' h k =
      migrate-skips again ms db' k (migrate-IsDone faults ms db db' h).1
