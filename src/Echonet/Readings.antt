-- ===== src/Echonet/Readings.antt =====
-- cmd/hm-echonet-collector/main.go: `decodeReadings`, from a frame to the rows that it stores.
use Prim.Native.String.{String}
use home_metrics.Base.{
  ℕ, ◌+◌, ◌/◌, ◌%◌, List, [], ◌∷◌, Option, none, some, ltb, ◌==◌, if◌then◌else◌, length,
}
use home_metrics.Base.Float.{Float64}
use home_metrics.Base.Time.{Time}
use home_metrics.Base.Text.{Text}
use home_metrics.Echonet.{Eoj, PropertyValue, Frame, MetricConfig, ok, err, metric_for, decode}

abbrev hex_digit : ℕ → ℕ
hex_digit n = if ltb n 10 then n + b'0' else n + 87

-- `formatEOJ`.
unfoldable pub format_eoj : Eoj → Text
format_eoj e =
    hex_digit (e.byte0 / 16)
    ∷ hex_digit (e.byte0 % 16)
    ∷ hex_digit (e.byte1 / 16)
    ∷ hex_digit (e.byte1 % 16)
    ∷ hex_digit (e.byte2 / 16)
    ∷ hex_digit (e.byte2 % 16)
    ∷ []

pub record EnergyReading (F : Type 0) : Type 0 where
  pub ts : Time
  pub device_key : Text
  pub instance_name : Text
  pub metric : String
  pub value : F
  pub unit : String
  pub raw_property : String

module _ (fl : Float64) (ts : Time) (device_key : Text) where
  abbrev reading : MetricConfig → fl.F → EnergyReading fl.F
  reading m v = record {
    ts = ts;
    device_key = device_key;
    instance_name = format_eoj m.eoj;
    metric = m.metric;
    value = v;
    unit = m.unit;
    raw_property = m.raw_property;
  }

  -- One turn of the loop of `decodeReadings`.
  unfoldable pub decode_property : Eoj → PropertyValue → Option (EnergyReading fl.F)
  unfolding metric_for decode format_eoj
  decode_property source prop = elim (metric_for source prop.epc) [
    | none ↦ none
    | some m ↦
        if length prop.edt == 0
        then none
        else elim (decode fl m.decoder prop.edt) [ ok v ↦ some (reading m v) | err e ↦ none ]
  ]

  unfoldable pub decode_all : Eoj → List PropertyValue → List (EnergyReading fl.F)
  unfolding decode_property
  decode_all source [] = []
  decode_all source (prop ∷ props) =
      let more = decode_all source props in
      elim (decode_property source prop) [ none ↦ more | some r ↦ r ∷ more ]

  unfoldable pub decode_readings : Frame → List (EnergyReading fl.F)
  unfolding decode_all
  decode_readings f = decode_all f.seoj f.properties
