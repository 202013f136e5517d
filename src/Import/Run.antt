-- ===== src/Import/Run.antt =====
-- cmd/hm-energy-influx-import/main.go: `importRows`, and the loop of `parseAndImport`.
use home_metrics.Base.{
  ℕ, ◌+◌, Bool, List, [], ◌∷◌, ◌++◌, Option, none, some, if◌then◌else◌, length, leb,
}
use home_metrics.Base.Int.{ℤ, pos, leb_ℤ, pos_part}
use home_metrics.Base.Time.{Time}
use home_metrics.Base.Text.{Text}
use home_metrics.Store.{is_blank}
use home_metrics.Import.{
  Mode, InfluxRow, ImportError, store_failed, Line, Turn, skip, header, row, stop,
}
use home_metrics.Import.Rows.{turn_of}

abbrev pub batch_size_of : ℤ → ℕ
batch_size_of n = if leb_ℤ n (pos 0) then 2000 else pos_part n

-- The row as it is sent: an empty text is stored as null.
pub record StoredRow (F : Type 0) : Type 0 where
  pub influx : InfluxRow F
  pub stored_unit : Option Text
  pub stored_topic : Option Text
  pub stored_instance : Option Text

abbrev or_null : Text → Option Text
or_null s = if is_blank s then none else some s

abbrev pub stored_row : {F : Type 0} → InfluxRow F → StoredRow F
stored_row r = record {
  influx = r;
  stored_unit = or_null r.unit;
  stored_topic = or_null r.raw_topic;
  stored_instance = or_null r.instance_name;
}

-- The rows of a batch one by one: `put` is the upsert of a row, none where the statement fails.
module _ {F D : Type 0} (put : StoredRow F → D → Option D) where
  abbrev pub put_next : (D → Option D) → Option D → Option D
  put_next rest none = none
  put_next rest (some d) = rest d

  unfoldable pub put_all : List (InfluxRow F) → D → Option D
  put_all [] d = some d
  put_all (r ∷ rs) d = put_next (put_all rs) (put (stored_row r) d)

-- `closes` is whether the close of a batch reports no error. The server takes a batch back that fails.
module _ {F D : Type 0} (put : StoredRow F → D → Option D) (closes : D → Bool) where
  abbrev pub closed : Option D → Option D
  closed none = none
  closed (some d) = if closes d then some d else none

  unfoldable pub import_rows : List (InfluxRow F) → D → Option D
  unfolding put_all
  import_rows rs d = closed (put_all put rs d)

  -- A batch is stored, and the rest goes on with an empty batch.
  abbrev pub after_batch :
      ℕ → ℕ → D → (ℕ → D → D × ℕ × Option ImportError) → Option D → D × ℕ × Option ImportError
  after_batch n total d rest none = (d, total, some store_failed)
  after_batch n total d rest (some d') = rest (total + n) d'

  unfoldable pub finish : List (InfluxRow F) → ℕ → D → D × ℕ × Option ImportError
  unfolding import_rows
  finish [] total d = (d, total, none)
  finish (r ∷ rs) total d =
      after_batch (length (r ∷ rs)) total d (λ n d'. (d', n, none)) (import_rows (r ∷ rs) d)

  unfoldable pub add_row :
      ℕ
      → List (InfluxRow F)
      → ℕ
      → D
      → (List (InfluxRow F) → ℕ → D → D × ℕ × Option ImportError)
      → D × ℕ × Option ImportError
  unfolding import_rows
  add_row size rows total d rest =
      if leb size (length rows)
      then after_batch (length rows) total d (rest []) (import_rows rows d)
      else rest rows total d

  -- What a turn makes of the turns after it.
  unfoldable pub proceed :
      ℕ
      → Option (List Text)
      → List (InfluxRow F)
      → ℕ
      → D
      → (Option (List Text) → List (InfluxRow F) → ℕ → D → D × ℕ × Option ImportError)
      → Turn F
      → D × ℕ × Option ImportError
  unfolding add_row
  proceed size columns rows total d rest skip = rest columns rows total d
  proceed size columns rows total d rest (header vs) = rest (some vs) rows total d
  proceed size columns rows total d rest (row r) =
      add_row size (rows ++ r ∷ []) total d (rest columns)
  proceed size columns rows total d rest (stop e) = (d, total, some e)

module _ {F D : Type 0} (parse_time : Text → Option Time) (parse_float : Text → Option F)
    (put : StoredRow F → D → Option D) (closes : D → Bool) where
  unfoldable pub import_loop :
      Mode
      → ℕ
      → Option (List Text)
      → List (InfluxRow F)
      → ℕ
      → List Line
      → D
      → D × ℕ × Option ImportError
  unfolding turn_of proceed finish
  import_loop mode size columns rows total [] d = finish put closes rows total d
  import_loop mode size columns rows total (l ∷ ls) d =
      proceed put closes size columns rows total d
        (λ cs rs n d'. import_loop mode size cs rs n ls d')
        (turn_of parse_time parse_float mode columns l)

  -- `parseAndImport`: the database, the number of rows it reports, and its error.
  unfoldable pub parse_and_import : Mode → ℤ → List Line → D → D × ℕ × Option ImportError
  unfolding import_loop
  parse_and_import mode size ls d = import_loop mode (batch_size_of size) none [] 0 ls d
