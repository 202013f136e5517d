-- ===== src/Import/Rows.antt =====
-- cmd/hm-energy-influx-import/main.go: `parseRecord`, and what a record is to the loop.
use home_metrics.Base.{List, [], Option, none, some, if◌then◌else◌}
use home_metrics.Base.Time.{Time}
use home_metrics.Base.Text.{Text, codes}
use home_metrics.Import.{
  Mode, nature_remo, echonet, apcupsd, InfluxRow, MetricConfig, unreadable_record, missing_header,
  time_refused, value_refused, Result, ok, err, ◌>>=◌, or_error, config_of, echonet_metrics,
  apcupsd_metrics, get, trimmed, first_of, has_csv_header, is_passed_over, Line, values, unreadable,
  Turn, skip, header, row, stop,
}

module _ {F : Type 0} (parse_time : Text → Option Time) (parse_float : Text → Option F) where
  abbrev echonet_row : List Text → List Text → Time → F → Option MetricConfig → Option (InfluxRow F)
  echonet_row columns vs t v none = none
  echonet_row columns vs t v (some c) = some record {
    ts = t;
    source = codes "echonet";
    device_key = first_of (trimmed columns vs (codes "device")) (codes "echonet-device");
    instance_name = trimmed columns vs (codes "instance");
    metric = c.name;
    value = v;
    unit = c.in_unit;
    raw_property = trimmed columns vs (codes "property");
    raw_topic = trimmed columns vs (codes "mqtt_topic");
  }

  abbrev plain_row : Text → Text → Text → Text → Text → Time → F → InfluxRow F
  plain_row from device name unit_name field t v = record {
    ts = t;
    source = from;
    device_key = device;
    instance_name = [];
    metric = name;
    value = v;
    unit = unit_name;
    raw_property = field;
    raw_topic = [];
  }

  abbrev apcupsd_row :
      List Text → List Text → Time → F → Text → Option MetricConfig → Option (InfluxRow F)
  apcupsd_row columns vs t v field none = none
  apcupsd_row columns vs t v field (some c) = some (
      plain_row (codes "apcupsd")
        (first_of (trimmed columns vs (codes "ups_name"))
          (first_of (trimmed columns vs (codes "host")) (codes "ups")))
        c.name c.in_unit field t v)

  abbrev row_of : Mode → List Text → List Text → Time → F → Text → Option (InfluxRow F)
  row_of echonet columns vs t v field = echonet_row columns vs t v (config_of echonet_metrics field)
  row_of apcupsd columns vs t v field =
      apcupsd_row columns vs t v field (config_of apcupsd_metrics field)
  row_of nature_remo columns vs t v field =
      let host = trimmed columns vs (codes "host") in
      some (
        plain_row (codes "nature_remo") (first_of host (codes "remo-e"))
          (codes "measured_instantaneous_w") (codes "W") field t v)

  -- `parseRecord`: none for a field that is not imported.
  unfoldable pub parse_record : Mode → List Text → List Text → Result (Option (InfluxRow F))
  unfolding get trimmed ◌>>=◌
  parse_record mode columns vs = do
    raw_ts ← get columns vs (codes "_time")
    t ← or_error time_refused (parse_time raw_ts)
    raw_value ← get columns vs (codes "_value")
    v ← or_error value_refused (parse_float raw_value)
    field ← get columns vs (codes "_field")
    ok (row_of mode columns vs t v field)

  abbrev as_turn : Result (Option (InfluxRow F)) → Turn F
  as_turn (ok (some r)) = row r
  as_turn (ok none) = skip
  as_turn (err e) = stop e

  abbrev read_row : Mode → Option (List Text) → List Text → Turn F
  read_row mode none vs = stop missing_header
  read_row mode (some columns) vs = as_turn (parse_record mode columns vs)

  unfoldable pub turn_of : Mode → Option (List Text) → Line → Turn F
  unfolding is_passed_over has_csv_header parse_record
  turn_of mode columns unreadable = stop unreadable_record
  turn_of mode columns (values vs) =
      if is_passed_over vs
      then skip
      else if has_csv_header vs
      then header vs
      else read_row mode columns vs
