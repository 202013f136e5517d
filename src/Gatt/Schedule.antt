-- ===== src/Gatt/Schedule.antt =====
-- cmd/hm-cisco-iot-orchestrator-collector/gatt_poller.go: when the battery of a device is polled, and
-- what a poll does. `parse` is `time.ParseDuration`, and `random` eight random bytes as a number.
use home_metrics.Base.{
  ℕ, ◌+◌, ◌*◌, ◌%◌, ◌^◌, ◌≤◌, ◌<◌, Bool, true, false, ◌≡◌, List, [], ◌∷◌, Option, none, some, ◌&&◌,
  not, if◌then◌else◌, arith,
}
use home_metrics.Base.Int.{ℤ, pos, leb_ℤ, ltb_ℤ, ◌+ℤ◌, ◌-ℤ◌, ◌*ℤ◌, pos_part, wrap64}
use home_metrics.Base.Time.{Time, Duration, minute, is_before, is_zero}
use home_metrics.Base.Text.{Text, codes, trim_space}
use home_metrics.Store.{is_blank, or_text}

pub record GattBatteryConfig : Type 0 where
  pub enabled : Option Bool
  pub device_id : Text
  pub service_id : Text
  pub characteristic_id : Text
  pub poll_interval : Text
  pub jitter : Text
  pub advertisement_max_age : Text
  pub history_backfill : Option Bool
  pub max_history_entries : ℤ

abbrev is_true : Option Bool → Bool
is_true none = true
is_true (some b) = b

unfoldable pub gatt_battery_enabled : Option GattBatteryConfig → Bool
unfolding trim_space
gatt_battery_enabled none = false
gatt_battery_enabled (some c) = is_true c.enabled && not (is_blank (trim_space c.device_id))

abbrev says_true : Option Bool → Bool
says_true none = false
says_true (some b) = b

unfoldable pub gatt_history_backfill_enabled : Option GattBatteryConfig → Bool
unfolding gatt_battery_enabled
gatt_history_backfill_enabled none = false
gatt_history_backfill_enabled (some c) =
    gatt_battery_enabled (some c) && says_true c.history_backfill

unfoldable pub gatt_history_max_entries : Option GattBatteryConfig → ℕ
gatt_history_max_entries none = 24
gatt_history_max_entries (some c) =
    if leb_ℤ c.max_history_entries (pos 0) then 24 else pos_part c.max_history_entries

unfoldable pub gatt_battery_service_id : GattBatteryConfig → Text
unfolding trim_space
gatt_battery_service_id c = or_text (trim_space c.service_id) (codes "1204")

unfoldable pub gatt_battery_characteristic_id : GattBatteryConfig → Text
unfolding trim_space
gatt_battery_characteristic_id c =
    or_text (trim_space c.characteristic_id) (codes "00001a02-0000-1000-8000-00805f9b34fb")

module _ (parse : Text → Option Duration) where
  abbrev non_negative : Option Duration → Duration → Duration
  non_negative none fallback = fallback
  non_negative (some d) fallback = if ltb_ℤ d (pos 0) then fallback else d

  unfoldable pub parse_non_negative_duration : Text → Duration → Duration
  unfolding trim_space
  parse_non_negative_duration value fallback =
      if is_blank (trim_space value)
      then fallback
      else non_negative (parse (trim_space value)) fallback

  unfoldable pub parse_positive_duration : Text → Duration → Duration
  unfolding parse_non_negative_duration
  parse_positive_duration value fallback =
      let parsed = parse_non_negative_duration value fallback in
      if leb_ℤ parsed (pos 0) then fallback else parsed

  -- A day, half an hour and ten minutes are the defaults.
  unfoldable pub gatt_battery_poll_interval : Option GattBatteryConfig → Duration
  unfolding parse_positive_duration
  gatt_battery_poll_interval none = pos (1440 * minute)
  gatt_battery_poll_interval (some c) =
      parse_positive_duration c.poll_interval (pos (1440 * minute))

  unfoldable pub gatt_battery_jitter : Option GattBatteryConfig → Duration
  unfolding parse_non_negative_duration
  gatt_battery_jitter none = pos (30 * minute)
  gatt_battery_jitter (some c) = parse_non_negative_duration c.jitter (pos (30 * minute))

  unfoldable pub gatt_battery_advertisement_max_age : Option GattBatteryConfig → Duration
  unfolding parse_positive_duration
  gatt_battery_advertisement_max_age none = pos (10 * minute)
  gatt_battery_advertisement_max_age (some c) =
      parse_positive_duration c.advertisement_max_age (pos (10 * minute))

unfoldable pub random_non_negative_duration : ℕ → Duration → Duration
random_non_negative_duration random limit =
    if leb_ℤ limit (pos 0) then pos 0 else pos (random % pos_part limit)

unfoldable pub random_signed_duration : ℕ → Duration → Duration
unfolding random_non_negative_duration ◌*ℤ◌ ◌-ℤ◌
random_signed_duration random limit =
    if leb_ℤ limit (pos 0)
    then pos 0
    else wrap64 (random_non_negative_duration random (wrap64 (pos 2 *ℤ limit)) -ℤ limit)

-- `t.Add(d)`.
abbrev plus : Time → Duration → Time
plus t d = pos_part (pos t +ℤ d)

module _ (parse : Text → Option Duration) where
  unfoldable pub next_gatt_battery_due : ℕ → Time → Option GattBatteryConfig → Time
  unfolding gatt_battery_poll_interval gatt_battery_jitter random_signed_duration ◌+ℤ◌
  next_gatt_battery_due random now c =
      plus (plus now (gatt_battery_poll_interval parse c))
        (random_signed_duration random (gatt_battery_jitter parse c))

  -- What the database knows of the last battery value: none where it could not be asked, the zero time
  -- where there is no value.
  abbrev due_after : ℕ → Time → Option GattBatteryConfig → Option Time → Time
  due_after random now c none =
      plus now (random_non_negative_duration random (gatt_battery_jitter parse c))
  due_after random now c (some last) =
      if is_zero last
      then plus now (random_non_negative_duration random (gatt_battery_jitter parse c))
      else let due = next_gatt_battery_due random last c in if is_before due now then now else due

  unfoldable pub initial_gatt_battery_due : ℕ → Option Time → Option GattBatteryConfig → Time → Time
  unfolding next_gatt_battery_due random_non_negative_duration gatt_battery_jitter ◌+ℤ◌
  initial_gatt_battery_due random last c now = due_after random now c last

  -- The schedule after a poll: a quarter of an hour later after an error.
  unfoldable pub due_after_poll : ℕ → Time → Option GattBatteryConfig → Bool → Time
  unfolding next_gatt_battery_due
  due_after_poll random now c failed =
      if failed then now + 15 * minute else next_gatt_battery_due random now c

-- What `reportGATTResult` marks.
pub data Mark (E : Type 0) : Type 0 where
  success : Mark E
  data_success : Mark E
  failure : E → Mark E

unfoldable pub report_gatt_result : {E : Type 0} → Bool → Option E → List (Mark E)
report_gatt_result data_written (some e) =
    if data_written then data_success ∷ failure e ∷ [] else failure e ∷ []
report_gatt_result data_written none = if data_written then data_success ∷ [] else success ∷ []

-- The jitter of a device with a jitter `limit` lies from -limit up to, and without, limit.
random_signed_bounds :
    (random limit : ℕ)
    → 0 < limit
    → limit < 2 ^ 62
    → (r : ℕ) × (r < 2 * limit) × (random_signed_duration random (pos limit) ≡ pos r -ℤ pos limit)
unfolding random_signed_duration ◌-ℤ◌ ◌*ℤ◌
random_signed_bounds random limit p h = (random % (2 * limit), ground arith, ground arith)

moved_by :
    (t i j r : ℕ) (s : Duration)
    → r < 2 * j
    → j ≤ i
    → s ≡ pos r -ℤ pos j
    → (t + i ≤ plus (plus t (pos i)) s + j) × (plus (plus t (pos i)) s < t + i + j)
unfolding ◌+ℤ◌ ◌-ℤ◌
moved_by t i j r s p q e = ground arith

-- The next poll of a device is due one poll interval later, less than the jitter early or late, or
-- early by just the jitter; the jitter is positive, at most the interval, and below 2 ^ 62 ns.
pub next_gatt_battery_due-window :
    (parse : Text → Option Duration) (random : ℕ) (now : Time) (c : Option GattBatteryConfig)
    (i j : ℕ)
    → gatt_battery_poll_interval parse c ≡ pos i
    → gatt_battery_jitter parse c ≡ pos j
    → 0 < j
    → j ≤ i
    → j < 2 ^ 62
    → (now + i ≤ next_gatt_battery_due parse random now c + j)
      × (next_gatt_battery_due parse random now c < now + i + j)
unfolding next_gatt_battery_due
next_gatt_battery_due-window parse random now c i j e f p q h =
    let b = random_signed_bounds random j p h in
    rw (e, f) (moved_by now i j b.0 (random_signed_duration random (pos j)) b.1 q b.2)
