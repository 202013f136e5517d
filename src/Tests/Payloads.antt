-- ===== src/Tests/Payloads.antt =====
-- MAC addresses, sensor payloads, ECHONET Lite frames and collector reports.
use home_metrics.Base.{◌≡◌, refl, true, false, List, [], ◌∷◌, ◌++◌, none, some, arith}
use home_metrics.Base.Int.{ℤ, pos, negsuc}
use home_metrics.Base.Time.{Time, truncate_minute}
use home_metrics.Base.Text.{codes, to_lower}
use home_metrics.Sensor.Mac.{
  is_hex, is_separator, join_pairs, normalize_mac, Spells, done, separator, digit,
  normalize_mac-Spells,
}
use home_metrics.Decoder.{decode_fe95}
use home_metrics.Decoder.Payload.{service_data_from_advertisement, decode_ble_payload}
use home_metrics.Decoder.Ranges.{IsInRange, decode_ble_payload-IsInRange}
use home_metrics.Decoder.Structures.{
  Structure, encode_structures, service_data_of, IsPadding, service_data_from_advertisement-encode,
}
use home_metrics.Decoder.Xiaomi.{Object, flower_care_frame, values_of, decode_fe95-encode}
use home_metrics.Echonet
use home_metrics.Echonet.Esv
use home_metrics.Echonet.Readings
use home_metrics.Echonet.Parsing.{encode_frame, IsFrom, parse_frame-encode}
use home_metrics.Echonet.Values.{be_bytes, complement, Fits, decode_signed-complement}
use home_metrics.Echonet.Request.{
  Receipt, Turn, datagram, read_timeout, stored, await_answer, answer_frame, IsAnswered,
  await_answer-stored,
}
use home_metrics.Status.{Target, normalized}
use home_metrics.Status.History.{
  Report, success, failure, table_after, reports_on, summary, table_after-summary,
}
use home_metrics.Tests.Integers.{integers}

spelled : Spells (codes "aabbccddeeff") (codes "AA:BBCCDDEEFF")
unfolding to_lower is_hex is_separator
spelled = digit b'A' refl (
    digit b'A' refl (
      separator b':' refl (
        digit b'B' refl (
          digit b'B' refl (
            digit b'C' refl (
              digit b'C' refl (
                digit b'D' refl (
                  digit b'D' refl (
                    digit b'E' refl
                      (digit b'E' refl (digit b'F' refl (digit b'F' refl done))))))))))))

normalize_mac-Spells_example :
    normalize_mac (codes "AA:BBCCDDEEFF") ≡ join_pairs (codes "aabbccddeeff")
normalize_mac-Spells_example =
    normalize_mac-Spells (codes "aabbccddeeff") (codes "AA:BBCCDDEEFF") (omega arith) spelled

decode_ble_payload-IsInRange_example :
    IsInRange integers (decode_ble_payload integers (0xa1 ∷ 1 ∷ 200 ∷ 25 ∷ 0 ∷ 40 ∷ []))
decode_ble_payload-IsInRange_example =
    decode_ble_payload-IsInRange integers (0xa1 ∷ 1 ∷ 200 ∷ 25 ∷ 0 ∷ 40 ∷ [])

abbrev structures : List Structure
structures =
    record { ad_type = 1; ad_data = 6 ∷ [] }
    ∷ record { ad_type = 0x16; ad_data = 0x95 ∷ 0xfe ∷ 1 ∷ 2 ∷ [] }
    ∷ []

service_data_from_advertisement-encode_example :
    service_data_from_advertisement (encode_structures structures ++ 0 ∷ 0 ∷ [])
    ≡ service_data_of structures
service_data_from_advertisement-encode_example =
    service_data_from_advertisement-encode structures (0 ∷ 0 ∷ []) (unfold IsPadding in refl)

abbrev moisture : Object
moisture = record { id = 0x1008; value = 23 ∷ [] }

decode_fe95-encode_example :
    decode_fe95 integers (flower_care_frame integers 1 2 3 4 5 6 7 8 (moisture ∷ []))
    ≡ values_of integers (moisture ∷ [])
decode_fe95-encode_example = decode_fe95-encode integers 1 2 3 4 5 6 7 8 moisture []

abbrev battery : Echonet.Eoj
battery = Echonet.eoj 0x02 0x7d 0x01

abbrev response : Echonet.Frame
response = record {
  tid = 9;
  seoj = battery;
  deoj = Echonet.controller;
  esv = Esv.get_res;
  properties = record { seoj = battery; epc = 0xe4; edt = 80 ∷ [] } ∷ [];
}

parse_frame-encode_example :
    Echonet.parse_frame (encode_frame response ++ 1 ∷ []) ≡ Echonet.ok response
parse_frame-encode_example = parse_frame-encode response (1 ∷ []) (unfold IsFrom in (refl, tt))

decode_signed-complement_example :
    Echonet.decode_signed integers (be_bytes 2 (complement 2 (negsuc 299)))
    ≡ Echonet.ok (negsuc 299)
decode_signed-complement_example =
    decode_signed-complement integers 2 (negsuc 299) (omega arith) (omega arith)
      (unfold Fits in omega arith)

abbrev readings : List (Readings.EnergyReading ℤ)
readings =
    record {
      ts = 60_000_000_000;
      device_key = codes "home";
      instance_name = codes "027d01";
      metric = "battery_remaining";
      value = pos 80;
      unit = "%";
      raw_property = "remainingCapacity3";
    }
    ∷ []

abbrev loop_turn : Time → Receipt → Turn
loop_turn checked receipt = record { checked = checked; receipt = receipt }

abbrev turns : List Turn
turns =
    loop_turn 60_000_000_000 (read_timeout false)
    ∷ loop_turn 60_000_000_004 (datagram 60_000_000_005 (1 ∷ 2 ∷ []))
    ∷ loop_turn 60_000_000_006 (
        datagram 60_000_000_007
          (0x10 ∷ 0x81 ∷ 0 ∷ 9 ∷ 2 ∷ 0x7d ∷ 1 ∷ 5 ∷ 0xff ∷ 1 ∷ 0x72 ∷ 1 ∷ 0xe4 ∷ 1 ∷ 80 ∷ []))
    ∷ []

is_stored :
    await_answer integers (λ rs. true) 9 (codes "home") 60_000_000_009 turns ≡ stored readings
unfolding await_answer answer_frame Echonet.parse_frame Echonet.parse_properties
    Readings.decode_readings Readings.decode_all Readings.decode_property Readings.format_eoj
    truncate_minute Echonet.metric_for Echonet.find_metric Echonet.decode Echonet.decode_unsigned
    Echonet.big_endian
is_stored = refl

await_answer-stored_example :
    IsAnswered integers (λ rs. true) 9 (codes "home") 60_000_000_009 readings turns
await_answer-stored_example =
    await_answer-stored integers (λ rs. true) 9 (codes "home") 60_000_000_009 readings turns
      is_stored

abbrev target : Target
target = record {
  collector_name = codes "collector";
  target_type = codes "device";
  target_key = codes " ";
}

abbrev reports : List Report
reports =
    record { at = 30; target = target; outcome = failure none; fails = false }
    ∷ record { at = 20; target = target; outcome = failure (some (codes "lost")); fails = true }
    ∷ record { at = 10; target = target; outcome = success; fails = false }
    ∷ []

table_after-summary_example :
    table_after reports (normalized target) ≡ summary (reports_on (normalized target) reports)
table_after-summary_example = table_after-summary reports (normalized target)
