-- ===== src/Tests/Collectors.antt =====
-- The Sensor Connect and Spaces collectors at concrete inputs, with the integers for Go's `float64`.
use home_metrics.Base.{
  ℕ, ◌+◌, ◌*◌, ◌^◌, ◌<◌, min, ◌≡◌, ◌≢◌, refl, sym, ◌∙◌, true, false, List, [], ◌∷◌, Option, none,
  some, All, arith,
}
use home_metrics.Base.Int.{ℤ, pos, ◌-ℤ◌}
use home_metrics.Base.Time.{second, minute}
use home_metrics.Base.Text.{Text, codes, eq_text, is_space, to_lower, trim_space}
use home_metrics.Registry.{TargetDevice, TargetRegistry, ok}
use home_metrics.Registry.Loaded.{owned, only_enabled, AreDistinct}
use home_metrics.Ble.Registry
use home_metrics.Ble.Registry.{load_target_registry, load_target_registry-loaded}
use home_metrics.Connect.Backoff.{
  new_reconnect_backoff, subscribed, ended, after, failures, next, next-delay,
}
use home_metrics.Connect.Batch.{decode_data_batch, IsPlausible, decode_data_batch-IsPlausible}
use home_metrics.Proto
use home_metrics.Proto.Messages
use home_metrics.Sensor.{Reading}
use home_metrics.Sensor.Mac
use home_metrics.Spaces.{Config, FirehoseEvent, normalize_mac}
use home_metrics.Spaces.Mac.{normalize_mac-agrees}
use home_metrics.Spaces.Process.{
  Processor, RecentMetric, temperature, valid_temperature_step, new_processor,
}
use home_metrics.Spaces.Stream.{stream_with_reconnect, doublings, stream_with_reconnect-doublings}
use home_metrics.Spaces.Stuck.{process_all, process_all-Holds}
use home_metrics.Spaces.Uploads.{AreApart, uploads, uploads-AreApart}
use home_metrics.Gatt.{ControlApi, Answer, control, read_history_entry}
use home_metrics.Gatt.Session.{logged, open_sessions, read_history_entry-sessions}
use home_metrics.Gatt.History.{
  IsBounded, read_flower_care_history, read_flower_care_history-IsBounded,
}
use home_metrics.Tests.Integers.{integers}

abbrev mac : Text
mac = codes "aa:bb:cc:dd:ee:ff"

abbrev device : TargetDevice
device = record {
  mac = codes "AA-BB-CC-DD-EE-FF";
  label = codes "desk";
  location = [];
  ingest_source = codes "ble";
  sensor_type_code = [];
  sensor_category = [];
  enabled = none;
}

abbrev registered_device : TargetDevice
registered_device = record device { mac = mac; location = codes "desk" }

abbrev registry : TargetRegistry
registry = record { all = registered_device ∷ []; enabled = registered_device ∷ [] }

loaded : load_target_registry (device ∷ []) ≡ ok registry
unfolding load_target_registry is_space Mac.is_separator to_lower Mac.is_hex eq_text
loaded = refl

load_target_registry-loaded_example :
    (registry.all ≡ owned Registry.judge (device ∷ []))
    × (registry.enabled ≡ only_enabled registry.all)
    × AreDistinct registry.all
load_target_registry-loaded_example = load_target_registry-loaded (device ∷ []) registry loaded

next-delay_example :
    (next (
      after
        (ended ∷ ended ∷ subscribed ∷ ended ∷ [])
        (new_reconnect_backoff (pos second) (pos minute)))).1
    ≡ pos (min minute (2 ^ failures (ended ∷ ended ∷ subscribed ∷ ended ∷ []) * second))
next-delay_example =
    next-delay second minute (ended ∷ ended ∷ subscribed ∷ ended ∷ []) (omega arith) (omega arith)
      (omega arith)

abbrev targets : Text → Option TargetDevice
targets m = some registered_device

-- A message with the payload of a thermometer, and an empty message.
abbrev payload : List ℕ
payload = 0x0a ∷ 8 ∷ 0x12 ∷ 6 ∷ 0xa1 ∷ 0x01 ∷ 90 ∷ 21 ∷ 0 ∷ 40 ∷ []

abbrev readings : List (Reading ℤ)
readings =
    record {
      ts = 5;
      mac = [];
      temperature_c = some (pos 21);
      humidity_percent = some (pos 40);
      battery_percent = some (pos 90);
      rssi = none;
      pressure_hpa = none;
      co2_ppm = none;
      lux = none;
      etvoc = none;
      soil_moisture_percent = none;
      conductivity_us_cm = none;
    }
    ∷ []

decoded : decode_data_batch integers targets 5 payload ≡ Proto.ok readings
unfolding decode_data_batch Proto.consume_key Proto.consume_varint Messages.batch_step
    Proto.consume_bytes Messages.parse_subscription Messages.subscription_step trim_space
decoded = refl

decode_data_batch-IsPlausible_example : All (IsPlausible integers targets) readings
decode_data_batch-IsPlausible_example =
    decode_data_batch-IsPlausible integers targets 5 payload readings decoded

abbrev config : Config
config = record {
  sample_window = pos 1;
  field_freshness = pos minute;
  upload_interval = pos minute;
  reconnect_min_delay = pos second;
  reconnect_max_delay = pos minute;
  stream_heartbeat = pos minute;
  battery_mode = codes "all";
  battery_allowlist = [];
}

abbrev event : ℕ → ℤ → FirehoseEvent ℤ
event ms t = record {
  event_type = codes "IOT_TELEMETRY";
  record_ts = pos ms;
  iot_telemetry = record {
    device_info = record { device_id = []; device_mac_address = mac; label = codes "desk" };
    temperature = some t;
    humidity = none;
    air_pressure = none;
    carbon_emissions = none;
    illuminance = none;
    battery = none;
    tvoc = none;
  };
}

uploads-AreApart_example :
    AreApart minute (uploads integers config (event 70000 (pos 21) ∷ event 1 (pos 20) ∷ []))
uploads-AreApart_example =
    uploads-AreApart integers config minute refl (event 70000 (pos 21) ∷ event 1 (pos 20) ∷ [])

abbrev last : RecentMetric ℤ
last = record { ts = 7; value = pos 20 }

abbrev processor : Processor ℤ
processor = record (new_processor ℤ) { last_metrics = λ m name. some last }

low :
    (ms t : ℕ)
    → t < 17
    → eq_text mac mac ≡ true
    → valid_temperature_step integers (some last) (pos t) ≡ false
unfolding valid_temperature_step ◌-ℤ◌
low ms t h e = ground arith

process_all-Holds_example :
    (process_all integers config (event 1 (pos 10) ∷ event 2 (pos 12) ∷ []) processor).last_metrics
      mac temperature
    ≡ some last
unfolding normalize_mac
process_all-Holds_example =
    process_all-Holds integers config mac last (event 1 (pos 10) ∷ event 2 (pos 12) ∷ []) processor
      (low 1 10 (omega arith), (low 2 12 (omega arith), tt)) refl

stream_with_reconnect-doublings_example :
    stream_with_reconnect {A = ℕ} config (1 ∷ 2 ∷ 3 ∷ [])
    ≡ doublings {A = ℕ} second minute 0 (1 ∷ 2 ∷ 3 ∷ [])
stream_with_reconnect-doublings_example =
    stream_with_reconnect-doublings config second minute refl refl (omega arith) (omega arith)
      (omega arith) (1 ∷ 2 ∷ 3 ∷ [])

spelled : Mac.normalize_mac mac ≡ mac
unfolding Mac.normalize_mac is_space to_lower Mac.is_separator Mac.is_hex trim_space
spelled = refl

named : Mac.normalize_mac mac ≢ []
named e = let none_left : mac ≡ [] = sym spelled ∙ e in ground arith

normalize_mac-agrees_example : normalize_mac mac ≡ Mac.normalize_mac mac
normalize_mac-agrees_example = normalize_mac-agrees mac named

-- A control API that counts its requests, answers with the same value to each read, and refuses to
-- disconnect.
abbrev api : ControlApi ℕ ℕ
api = record {
  connect = λ d. (d + 1, Answer.ok tt);
  disconnect = λ d. (d + 1, Answer.err (control 7));
  read = λ c d. (d + 1, Answer.ok (codes "0200000005"));
  write = λ c v d. (d + 1, Answer.ok tt);
  now = λ d. 0;
}

read_history_entry-sessions_example :
    open_sessions (read_history_entry (logged api) integers (codes "device") 1 (0, [])).0.1
    ≡ open_sessions []
read_history_entry-sessions_example =
    read_history_entry-sessions api integers (codes "device") 1 0 []

read_flower_care_history-IsBounded_example :
    IsBounded 24 (read_flower_care_history api integers (codes "device") 24 0).1
read_flower_care_history-IsBounded_example =
    read_flower_care_history-IsBounded api integers (codes "device") 24 0
