-- ===== src/Tests/Imports.antt =====
-- The import of energy readings at concrete inputs.
use home_metrics.Base.{ℕ, ◌≡◌, refl, true, List, [], ◌∷◌, Option, none, some, map, length}
use home_metrics.Base.Int.{pos}
use home_metrics.Base.Time.{Time}
use home_metrics.Base.Text.{Text, codes, eq_text, is_space}
use home_metrics.Import.{echonet, InfluxRow, Line, values, unreadable, unreadable_record}
use home_metrics.Import.Run.{StoredRow, stored_row, parse_and_import}
use home_metrics.Import.Batches.{rows_of, Stores, parse_and_import-Stores}

-- A time and a value are as long as their texts, and the table is the list of its rows.
abbrev parse_length : Text → Option ℕ
parse_length s = some (length s)

abbrev put : StoredRow ℕ → List (StoredRow ℕ) → Option (List (StoredRow ℕ))
put r rows = some (r ∷ rows)

abbrev solar : Text → Line
solar time = values (time ∷ codes "12" ∷ codes "solar_generation_w" ∷ codes " roof" ∷ [])

abbrev records : List Line
records =
    values (codes "#group" ∷ [])
    ∷ values (codes "_time" ∷ codes "_value" ∷ codes "_field" ∷ codes "device" ∷ [])
    ∷ solar (codes "1")
    ∷ values (codes "1" ∷ codes "2" ∷ codes "other" ∷ [])
    ∷ solar (codes "12")
    ∷ solar (codes "123")
    ∷ unreadable
    ∷ []

abbrev solar_row : Time → InfluxRow ℕ
solar_row t = record {
  ts = t;
  source = codes "echonet";
  device_key = codes "roof";
  instance_name = [];
  metric = codes "solar_generation_w";
  value = 2;
  unit = codes "W";
  raw_property = [];
  raw_topic = [];
}

-- The third row waits in a batch of two when the reader fails, and is lost.
two_imported :
    parse_and_import parse_length parse_length put (λ d. true) echonet (pos 2) records []
    ≡ (map stored_row (solar_row 2 ∷ solar_row 1 ∷ []), 2, some unreadable_record)
unfolding parse_and_import eq_text is_space
two_imported = refl

parse_and_import-Stores_example :
    Stores parse_length parse_length put
      (λ d. true)
      []
      (rows_of parse_length parse_length echonet none records)
      (parse_and_import parse_length parse_length put (λ d. true) echonet (pos 2) records [])
parse_and_import-Stores_example =
    parse_and_import-Stores parse_length parse_length put (λ d. true) echonet (pos 2) records []
