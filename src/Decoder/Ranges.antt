-- ===== src/Decoder/Ranges.antt =====
-- cmd/hm-cisco-iot-orchestrator-collector/decoder.go: the ranges of decoded values.
use home_metrics.Base.{
  ℕ, Bool, true, false, ◌||◌, not, if◌then◌else◌, Bool-cases, Option-cases, ◌⊎◌, inl, inr, ◌≡◌,
  refl, List, [], ◌∷◌, Option, none, some,
}
use home_metrics.Base.Int.{ℤ, pos, negsuc}
use home_metrics.Base.Float.{Float64}
use home_metrics.Decoder.{Bytes, hex_encode, hex_decode, looks_like_fe95}
use home_metrics.Decoder.Values.{
  Values, no_values, replaced, merge, sanitize_range, sanitize_reading,
}
use home_metrics.Decoder.Payload.{
  service_data_from_advertisement, decode_service_data, merge_all, decode_ble_payload,
}

List-cases : (xs : List Bytes) → (xs ≡ []) ⊎ ((y : Bytes) × (ys : List Bytes) × (xs ≡ y ∷ ys))
List-cases [] = inl refl
List-cases (y ∷ ys) = inr (y, ys, refl)

module _ (fl : Float64) where
  -- A value is missing, or finite, not below `lo` and not above `hi`.
  abbrev pub Within : Option fl.F → ℤ → ℤ → Type 0
  Within none lo hi = Unit {0}
  Within (some v) lo hi =
      (fl.is_finite v ≡ true) × (fl.lt v (fl.of_int lo) ≡ false) × (fl.lt (fl.of_int hi) v ≡ false)

  -- The ranges that a sensor can plausibly report.
  unfoldable pub IsInRange : Values fl.F → Type 0
  IsInRange r =
      Within r.temperature_c (negsuc 39) (pos 85)
      × Within r.humidity_percent (pos 0) (pos 100)
      × Within r.battery_percent (pos 0) (pos 100)
      × Within r.rssi (negsuc 126) (pos 20)
      × Within r.pressure_hpa (pos 300) (pos 1100)
      × Within r.co2_ppm (pos 0) (pos 10000)
      × Within r.lux (pos 0) (pos 65534)
      × Within r.etvoc (pos 0) (pos 60000)
      × Within r.soil_moisture_percent (pos 0) (pos 100)
      × Within r.conductivity_us_cm (pos 0) (pos 10000)

  kept :
      (v : fl.F) (lo hi : ℤ) (finite low high : Bool)
      → fl.is_finite v ≡ finite
      → fl.lt v (fl.of_int lo) ≡ low
      → fl.lt (fl.of_int hi) v ≡ high
      → Within (if not finite || low || high then none else some v) lo hi
  kept v lo hi true false false f l h = (f, l, h)
  kept v lo hi true false true f l h = tt
  kept v lo hi true true high f l h = tt
  kept v lo hi false low high f l h = tt

  pub sanitize_range-Within :
      (v : Option fl.F) (lo hi : ℤ) → Within (sanitize_range fl v lo hi) lo hi
  unfolding sanitize_range
  sanitize_range-Within none lo hi = tt
  sanitize_range-Within (some v) lo hi =
      kept v lo hi (fl.is_finite v) (fl.lt v (fl.of_int lo)) (fl.lt (fl.of_int hi) v) refl refl refl

  sanitize_reading-IsInRange : (r : Values fl.F) → IsInRange (sanitize_reading fl r)
  unfolding sanitize_reading IsInRange
  sanitize_reading-IsInRange r = (
    sanitize_range-Within r.temperature_c (negsuc 39) (pos 85),
    sanitize_range-Within r.humidity_percent (pos 0) (pos 100),
    sanitize_range-Within r.battery_percent (pos 0) (pos 100),
    sanitize_range-Within r.rssi (negsuc 126) (pos 20),
    sanitize_range-Within r.pressure_hpa (pos 300) (pos 1100),
    sanitize_range-Within r.co2_ppm (pos 0) (pos 10000),
    sanitize_range-Within r.lux (pos 0) (pos 65534),
    sanitize_range-Within r.etvoc (pos 0) (pos 60000),
    sanitize_range-Within r.soil_moisture_percent (pos 0) (pos 100),
    sanitize_range-Within r.conductivity_us_cm (pos 0) (pos 10000),
  )

  replaced-Within :
      (old new : Option fl.F) (lo hi : ℤ)
      → Within old lo hi
      → Within new lo hi
      → Within (replaced old new) lo hi
  replaced-Within old none lo hi p q = p
  replaced-Within old (some v) lo hi p q = q

  no_values-IsInRange : IsInRange (no_values fl.F)
  unfolding IsInRange
  no_values-IsInRange = (tt, tt, tt, tt, tt, tt, tt, tt, tt, tt)

  merge-IsInRange :
      (r other : Values fl.F) → IsInRange r → IsInRange other → IsInRange (merge r other)
  unfolding merge IsInRange
  merge-IsInRange r other p q = (
    replaced-Within r.temperature_c other.temperature_c (negsuc 39) (pos 85) p.0 q.0,
    replaced-Within r.humidity_percent other.humidity_percent (pos 0) (pos 100) p.1 q.1,
    replaced-Within r.battery_percent other.battery_percent (pos 0) (pos 100) p.2 q.2,
    p.3,
    replaced-Within r.pressure_hpa other.pressure_hpa (pos 300) (pos 1100) p.4 q.4,
    replaced-Within r.co2_ppm other.co2_ppm (pos 0) (pos 10000) p.5 q.5,
    replaced-Within r.lux other.lux (pos 0) (pos 65534) p.6 q.6,
    replaced-Within r.etvoc other.etvoc (pos 0) (pos 60000) p.7 q.7,
    replaced-Within r.soil_moisture_percent other.soil_moisture_percent (pos 0) (pos 100) p.8 q.8,
    replaced-Within r.conductivity_us_cm other.conductivity_us_cm (pos 0) (pos 10000) p.9 q.9,
  )

  decode_service_data-IsInRange : (h : List ℕ) → IsInRange (decode_service_data fl h)
  unfolding decode_service_data
  decode_service_data-IsInRange h = elim (Option-cases (hex_decode h)) [
    | inl e ↦ rw (e, decode_service_data) no_values-IsInRange
    | inr (data', e) ↦ elim (Bool-cases (looks_like_fe95 data')) [
      | inl l ↦ rw (e, decode_service_data, l) (sanitize_reading-IsInRange _)
      | inr l ↦ rw (e, decode_service_data, l) (sanitize_reading-IsInRange _)
    ]
  ]

  merge_all-IsInRange :
      (ds : List Bytes) (r : Values fl.F) → IsInRange r → IsInRange (merge_all fl ds r)
  unfolding merge_all
  merge_all-IsInRange [] r p = p
  merge_all-IsInRange (d ∷ ds) r p =
      merge_all-IsInRange ds (merge r (decode_service_data fl (hex_encode d))) (
        merge-IsInRange r (decode_service_data fl (hex_encode d)) p
          (decode_service_data-IsInRange (hex_encode d)))

  -- Every value that is decoded from an advertisement, whatever its bytes, is finite and within the
  -- range of its metric.
  pub decode_ble_payload-IsInRange : (data' : Bytes) → IsInRange (decode_ble_payload fl data')
  unfolding decode_ble_payload
  decode_ble_payload-IsInRange data' = elim (List-cases (service_data_from_advertisement data')) [
    | inl e ↦ rw (e, decode_ble_payload) (decode_service_data-IsInRange (hex_encode data'))
    | inr (d, ds, e) ↦
        rw (e, decode_ble_payload)
          (merge_all-IsInRange (d ∷ ds) (no_values fl.F) no_values-IsInRange)
  ]
