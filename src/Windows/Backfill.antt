-- ===== src/Windows/Backfill.antt =====
-- cmd/hm-cisco-iot-orchestrator-collector/aggregate.go: where `backfillSensorMinuteReadings` stops, and
-- what it counts.
use home_metrics.Base.{
  ℕ, suc, ◌+◌, Bool, ◌≡◌, refl, ap, List, [], ◌∷◌, ◌++◌, Option, none, some, arith,
}
use home_metrics.Sensor.{Reading}
use home_metrics.Store.{StoreError}
use home_metrics.Windows.{Outcome, wrote, nothing, failed}
use home_metrics.Windows.Store.{
  Database, upsert_sensor_minute_reading, counted, backfill_loop, backfill_sensor_minute_readings,
}

abbrev one_if_wrote : Outcome StoreError → ℕ → ℕ
one_if_wrote wrote n = suc n
one_if_wrote nothing n = n
one_if_wrote (failed e) n = n

abbrev pub Succeeds : Outcome StoreError → Type 0
Succeeds wrote = Unit {0}
Succeeds nothing = Unit {0}
Succeeds (failed e) = ⊥

module _ {F : Type 0} (no_db : Bool) where
  abbrev upsert : Database F → Reading F → Database F × Outcome StoreError
  upsert d r = upsert_sensor_minute_reading no_db d r

  -- The database after readings have been upserted one by one, whatever comes of each.
  unfoldable pub state_after : List (Reading F) → Database F → Database F
  state_after [] d = d
  state_after (r ∷ rs) d = state_after rs (upsert d r).0

  -- How many of these upserts write a row.
  unfoldable pub rows_written : List (Reading F) → Database F → ℕ
  rows_written [] d = 0
  rows_written (r ∷ rs) d = one_if_wrote (upsert d r).1 (rows_written rs (upsert d r).0)

  unfoldable pub NoneFails : List (Reading F) → Database F → Type 0
  NoneFails [] d = Unit {0}
  NoneFails (r ∷ rs) d = Succeeds (upsert d r).1 × NoneFails rs (upsert d r).0

  -- How a run ends whose next reading is the first of the list: it has none, or the upsert of it fails.
  abbrev pub Ends : Database F → List (Reading F) → Database F → Option StoreError → Type 0
  Ends d [] d' e = (d' ≡ d) × (e ≡ none)
  Ends d (r ∷ rs) d' e =
      (x : StoreError) × ((upsert d r).1 ≡ failed x) × (d' ≡ (upsert d r).0) × (e ≡ some x)

  -- A run over `rs` from `d` that had counted `n` rows before it.
  pub record Stops (n : ℕ) (rs : List (Reading F)) (d : Database F)
      (run : Database F × ℕ × Option StoreError) : Type 0 where
    pub done : List (Reading F)
    pub left : List (Reading F)
    pub split : done ++ left ≡ rs
    pub passed : NoneFails done d
    pub rows : run.1 ≡ n + rows_written done d
    pub ends : Ends (state_after done d) left run.0 run.2

  counted-Stops :
      (n : ℕ) (r : Reading F) (rs : List (Reading F)) (d d' : Database F) (o : Outcome StoreError)
      (rest : ℕ → Database F × ℕ × Option StoreError)
      → upsert d r ≡ (d', o)
      → ((m : ℕ) → Stops m rs d' (rest m))
      → Stops n (r ∷ rs) d (counted n o d' rest)
  unfolding state_after rows_written NoneFails
  counted-Stops n r rs d d' wrote rest e h =
      let s = h (suc n) in
      record {
        done = r ∷ s.done;
        left = s.left;
        split = ap (λ l. r ∷ l) s.split;
        passed = rw e (tt, s.passed);
        rows = rw e (omega (arith, s.rows));
        ends = rw e s.ends;
      }
  counted-Stops n r rs d d' nothing rest e h =
      let s = h n in
      record {
        done = r ∷ s.done;
        left = s.left;
        split = ap (λ l. r ∷ l) s.split;
        passed = rw e (tt, s.passed);
        rows = rw e s.rows;
        ends = rw e s.ends;
      }
  counted-Stops n r rs d d' (failed x) rest e h = record {
    done = [];
    left = r ∷ rs;
    split = refl;
    passed = tt;
    rows = omega arith;
    ends = (x, ap (λ u. u.1) e, rw e refl, refl);
  }

  loop-Stops :
      (n : ℕ) (rs : List (Reading F)) (d : Database F) → Stops n rs d (backfill_loop no_db n rs d)
  unfolding backfill_loop state_after rows_written NoneFails
  loop-Stops n [] d = record {
    done = [];
    left = [];
    split = refl;
    passed = tt;
    rows = omega arith;
    ends = (refl, refl);
  }
  loop-Stops n (r ∷ rs) d =
      let u = upsert d r in
      counted-Stops n r rs d u.0 u.1 (λ m. backfill_loop no_db m rs u.0) refl
        (λ m. loop-Stops m rs u.0)

  -- A backfill goes through the readings in order up to the first whose upsert fails: it stops there
  -- with that error, the database as that upsert left it and nothing tried of the readings after it; with
  -- no such reading it goes through all and ends without an error. It counts the upserts before the end
  -- that wrote a row.
  pub backfill-Stops :
      (rs : List (Reading F)) (d : Database F)
      → Stops 0 rs d (backfill_sensor_minute_readings no_db rs d)
  unfolding backfill_sensor_minute_readings
  backfill-Stops rs d = loop-Stops 0 rs d
