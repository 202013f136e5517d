-- ===== src/Import/Batches.antt =====
-- cmd/hm-energy-influx-import/main.go: `parseAndImport` and the rows of its records.
use home_metrics.Base.{
  ℕ, ◌+◌, Bool, true, false, ◌≡◌, refl, ap, ◌∙◌, subst, List, [], ◌∷◌, ◌++◌, Option, none, some,
  arith, length, length-append, leb, if◌then◌else◌,
}
use home_metrics.Base.Int.{ℤ}
use home_metrics.Base.Time.{Time}
use home_metrics.Base.Text.{Text}
use mathlib.Core.List.{append_assoc}
use home_metrics.Import.{Mode, InfluxRow, ImportError, Line, Turn, skip, header, row, stop}
use home_metrics.Import.Rows.{turn_of}
use home_metrics.Import.Run.{
  StoredRow, stored_row, put_next, put_all, import_rows, after_batch, finish, add_row, proceed,
  import_loop, parse_and_import, batch_size_of, closed,
}

some_injective : {A : Type 0} {a b : A} → some a ≡ some b → a ≡ b
some_injective e = ground arith

module _ {F D : Type 0} (put : StoredRow F → D → Option D) where
  next-append :
      (rest whole : D → Option D) (second : D → Option D) (o : Option D) (e : D)
      → ((d : D) → rest d ≡ some e → whole d ≡ second e)
      → put_next put rest o ≡ some e
      → put_next put whole o ≡ second e
  next-append rest whole second none e f h = ground arith
  next-append rest whole second (some d) e f h = f d h

  put_all-append :
      (xs ys : List (InfluxRow F)) (d e : D)
      → put_all put xs d ≡ some e
      → put_all put (xs ++ ys) d ≡ put_all put ys e
  unfolding put_all
  put_all-append [] ys d e h = ap (put_all put ys) (some_injective h)
  put_all-append (x ∷ xs) ys d e h =
      next-append (put_all put xs) (put_all put (xs ++ ys)) (put_all put ys) (put (stored_row x) d)
        e (λ d'. put_all-append xs ys d' e) h

module _ {F : Type 0} (parse_time : Text → Option Time) (parse_float : Text → Option F) where
  -- The rows of the records, as far as the first one that cannot be read.
  abbrev rows_turn :
      (Option (List Text) → List (InfluxRow F)) → Option (List Text) → Turn F → List (InfluxRow F)
  rows_turn rest columns skip = rest columns
  rows_turn rest columns (header vs) = rest (some vs)
  rows_turn rest columns (row r) = r ∷ rest columns
  rows_turn rest columns (stop e) = []

  unfoldable pub rows_of : Mode → Option (List Text) → List Line → List (InfluxRow F)
  unfolding turn_of
  rows_of mode columns [] = []
  rows_of mode columns (l ∷ ls) =
      rows_turn (λ cs. rows_of mode cs ls) columns (turn_of parse_time parse_float mode columns l)

  module _ {D : Type 0} (put : StoredRow F → D → Option D) (closes : D → Bool) where
    abbrev Run : Type 0
    Run = D × ℕ × Option ImportError

    -- A run from `start` has stored the first of `rows`, as many as it reports, one by one and in their
    -- order, and all of them if it ends without an error.
    pub record Stores (start : D) (rows : List (InfluxRow F)) (r : Run) : Type 0 where
      pub done : List (InfluxRow F)
      pub left : List (InfluxRow F)
      pub split : done ++ left ≡ rows
      pub stored : put_all put done start ≡ some r.0
      pub counted : length done ≡ r.1
      pub whole : r.2 ≡ none → left ≡ []

    closed-some : (o : Option D) (e : D) → closed put closes o ≡ some e → o ≡ some e
    closed-some none e h = h
    closed-some (some d) e h = ground arith

    after_batch-Stores :
        (start d : D) (done rows more : List (InfluxRow F)) (total : ℕ) (rest : ℕ → D → Run)
        (o : Option D)
        → import_rows put closes rows d ≡ o
        → put_all put done start ≡ some d
        → length done ≡ total
        → ((e : D)
            → put_all put (done ++ rows) start ≡ some e
            → length (done ++ rows) ≡ total + length rows
            → Stores start ((done ++ rows) ++ more) (rest (total + length rows) e))
        → Stores start
            (done ++ (rows ++ more))
            (after_batch put closes (length rows) total d rest o)
    unfolding import_rows
    after_batch-Stores start d done rows more total rest none i h n k = record {
      done = done;
      left = rows ++ more;
      split = refl;
      stored = h;
      counted = n;
      whole = λ e. ground arith;
    }
    after_batch-Stores start d done rows more total rest (some e) i h n k =
        subst (λ l. Stores start l (rest (total + length rows) e)) (append_assoc done rows more)
          (k e (put_all-append put done rows start d h ∙ closed-some (put_all put rows d) e i)
            (length-append done rows ∙ rw n refl))

    stopped-Stores :
        (start d : D) (done rows : List (InfluxRow F)) (total : ℕ) (e : ImportError)
        → put_all put done start ≡ some d
        → length done ≡ total
        → Stores start (done ++ rows) (d, total, some e)
    stopped-Stores start d done rows total e h n = record {
      done = done;
      left = rows;
      split = refl;
      stored = h;
      counted = n;
      whole = λ e'. ground arith;
    }

    ended-Stores :
        (start d : D) (done : List (InfluxRow F)) (total : ℕ)
        → put_all put done start ≡ some d
        → length done ≡ total
        → Stores start (done ++ []) (d, total, none)
    ended-Stores start d done total h n = record {
      done = done;
      left = [];
      split = refl;
      stored = h;
      counted = n;
      whole = λ e. refl;
    }

    finish-Stores :
        (start d : D) (done rows : List (InfluxRow F)) (total : ℕ)
        → put_all put done start ≡ some d
        → length done ≡ total
        → Stores start (done ++ (rows ++ [])) (finish put closes rows total d)
    unfolding finish
    finish-Stores start d done [] total h n = ended-Stores start d done total h n
    finish-Stores start d done (r ∷ rs) total h n =
        after_batch-Stores start d done (r ∷ rs) [] total (λ m e. (e, m, none))
          (import_rows put closes (r ∷ rs) d) refl h n
          (λ e h' n'. ended-Stores start e (done ++ r ∷ rs) (total + length (r ∷ rs)) h' n')

    -- What a run of the remaining turns stores, whatever was stored before it.
    abbrev Continues : D → List (InfluxRow F) → (List (InfluxRow F) → ℕ → D → Run) → Type 0
    Continues start more rest =
        (done rows : List (InfluxRow F)) (total : ℕ) (d : D)
        → put_all put done start ≡ some d
        → length done ≡ total
        → Stores start (done ++ (rows ++ more)) (rest rows total d)

    add_row-Stores :
        (start : D) (size : ℕ) (more : List (InfluxRow F)) (rest : List (InfluxRow F) → ℕ → D → Run)
        → Continues start more rest
        → Continues start more (λ rows total d. add_row put closes size rows total d rest)
    unfolding add_row
    add_row-Stores start size more rest k done rows total d h n = chosen (leb size (length rows))
      where
        chosen :
            (b : Bool)
            → Stores start (done ++ (rows ++ more)) (
                if b
                then after_batch put closes
                    (length rows)
                    total
                    d
                    (rest [])
                    (import_rows put closes rows d)
                else rest rows total d)
        chosen true =
            after_batch-Stores start d done rows more total (rest [])
              (import_rows put closes rows d) refl h n
              (λ e h' n'. k (done ++ rows) [] (total + length rows) e h' n')
        chosen false = k done rows total d h n

    proceed-Stores :
        (start : D) (size : ℕ) (columns : Option (List Text))
        (more : Option (List Text) → List (InfluxRow F))
        (rest : Option (List Text) → List (InfluxRow F) → ℕ → D → Run)
        → ((cs : Option (List Text)) → Continues start (more cs) (rest cs))
        → (t : Turn F)
        → Continues start
            (rows_turn more columns t)
            (λ rows total d. proceed put closes size columns rows total d rest t)
    unfolding proceed
    proceed-Stores start size columns more rest k skip done rows total d h n =
        k columns done rows total d h n
    proceed-Stores start size columns more rest k (header vs) done rows total d h n =
        k (some vs) done rows total d h n
    proceed-Stores start size columns more rest k (row r) done rows total d h n =
        subst
          (λ l.
            Stores start (done ++ l)
              (add_row put closes size (rows ++ r ∷ []) total d (rest columns)))
          (append_assoc rows (r ∷ []) (more columns))
          (add_row-Stores start size (more columns) (rest columns) (k columns) done (rows ++ r ∷ [])
            total d h n)
    proceed-Stores start size columns more rest k (stop e) done rows total d h n =
        stopped-Stores start d done (rows ++ []) total e h n

    loop-Stores :
        (start : D) (mode : Mode) (size : ℕ) (ls : List Line) (columns : Option (List Text))
        → Continues start (rows_of mode columns ls) (λ rows total d.
          import_loop parse_time parse_float put closes mode size columns rows total ls d)
    unfolding import_loop rows_of
    loop-Stores start mode size [] columns done rows total d h n =
        finish-Stores start d done rows total h n
    loop-Stores start mode size (l ∷ ls) columns done rows total d h n =
        proceed-Stores start size columns (λ cs. rows_of mode cs ls)
          (λ cs rs m e. import_loop parse_time parse_float put closes mode size cs rs m ls e)
          (λ cs. loop-Stores start mode size ls cs) (turn_of parse_time parse_float mode columns l)
          done rows total d h n

    -- An import with any batch size, any records and any statements or batches failing: the rows in the
    -- database are the first rows of the records in their order, each put once, as many as the import
    -- reports; an import that ends without an error has put the rows of all records.
    pub parse_and_import-Stores :
        (mode : Mode) (size : ℤ) (ls : List Line) (start : D)
        → Stores start
            (rows_of mode none ls)
            (parse_and_import parse_time parse_float put closes mode size ls start)
    unfolding parse_and_import put_all
    parse_and_import-Stores mode size ls start =
        loop-Stores start mode (batch_size_of size) ls none [] [] 0 start refl refl
