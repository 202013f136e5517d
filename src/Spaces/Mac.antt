-- ===== src/Spaces/Mac.antt =====
-- cmd/hm-cisco-spaces-collector/main.go: its own `normalizeMAC` against the one of internal/sensor.
use home_metrics.Base.{
  ℕ, true, false, Bool-cases, ◌≡◌, ◌≢◌, refl, ap, sym, ◌∙◌, inl, inr, [], ◌∷◌, map, ◌==◌, and_true,
  length, arith,
}
use home_metrics.Base.Text.{
  Text, is_space, trim_left, trim_right, trim_space, to_lower, push_trimmed,
}
use home_metrics.Sensor.Mac
use home_metrics.Sensor.Mac.{is_hex, is_separator, strip, all_hex, join_pairs}
use home_metrics.Spaces.{is_hex_digit, hex_digits, normalize_mac}

separator_dropped : (c : ℕ) → is_separator c ≡ true → is_hex_digit c ≡ false
unfolding is_separator
separator_dropped c h = ground arith

space_dropped : (c : ℕ) → is_space c ≡ true → is_hex_digit (to_lower c) ≡ false
unfolding is_space to_lower
space_dropped c h = ground arith

-- Where all that is left without separators is digits, these are what is kept.
hex_digits-strip : (s : Text) → all_hex (strip s) ≡ true → hex_digits s ≡ strip s
unfolding hex_digits strip all_hex is_hex
hex_digits-strip [] h = refl
hex_digits-strip (c ∷ s) h = elim (Bool-cases (is_separator c)) [
  | inl e ↦ rw (e, separator_dropped c e) (hex_digits-strip s (rw e at h))
  | inr e ↦
      let both = and_true (is_hex c) (all_hex (strip s)) (rw e at h) in
      rw (e, both.0) (ap (λ t. c ∷ t) (hex_digits-strip s both.1))
]

hex_digits-trim_left :
    (s : Text) → hex_digits (map to_lower (trim_left s)) ≡ hex_digits (map to_lower s)
unfolding hex_digits trim_left
hex_digits-trim_left [] = refl
hex_digits-trim_left (c ∷ s) = elim (Bool-cases (is_space c)) [
  | inl e ↦ rw (e, space_dropped c e) (hex_digits-trim_left s)
  | inr e ↦ rw e refl
]

hex_digits-push_trimmed :
    (c : ℕ) (s : Text)
    → hex_digits (map to_lower (push_trimmed c s)) ≡ hex_digits (map to_lower (c ∷ s))
unfolding hex_digits
hex_digits-push_trimmed c [] = elim (Bool-cases (is_space c)) [
  | inl e ↦ rw (e, space_dropped c e) refl
  | inr e ↦ rw e refl
]
hex_digits-push_trimmed c (d ∷ s) = refl

hex_digits-cons :
    (c : ℕ) (s t : Text) → hex_digits s ≡ hex_digits t → hex_digits (c ∷ s) ≡ hex_digits (c ∷ t)
unfolding hex_digits
hex_digits-cons c s t h = rw h refl

hex_digits-trim_right :
    (s : Text) → hex_digits (map to_lower (trim_right s)) ≡ hex_digits (map to_lower s)
unfolding trim_right
hex_digits-trim_right [] = refl
hex_digits-trim_right (c ∷ s) =
    hex_digits-push_trimmed c (trim_right s)
    ∙ hex_digits-cons (to_lower c) (map to_lower (trim_right s)) (map to_lower s)
        (hex_digits-trim_right s)

hex_digits-trim_space :
    (s : Text) → hex_digits (map to_lower (trim_space s)) ≡ hex_digits (map to_lower s)
unfolding trim_space
hex_digits-trim_space s = hex_digits-trim_right (trim_left s) ∙ hex_digits-trim_left s

-- Every text that the shared `NormalizeMAC` takes for a MAC address is the same MAC address for the
-- `normalizeMAC` of this collector, so that the two name a sensor alike.
pub normalize_mac-agrees :
    (value : Text) → Mac.normalize_mac value ≢ [] → normalize_mac value ≡ Mac.normalize_mac value
unfolding normalize_mac Mac.normalize_mac
normalize_mac-agrees value h =
    let t = map to_lower (trim_space value) in
    elim (Bool-cases (length (strip t) == 12)) [
      | inr n ↦ absurd (h (rw n refl))
      | inl n ↦ elim (Bool-cases (all_hex (strip t))) [
        | inr x ↦ absurd (h (rw (n, x) refl))
        | inl x ↦
            let same : hex_digits (map to_lower value) ≡ strip t =
              sym (hex_digits-trim_space value) ∙ hex_digits-strip t x in
            rw (same, n, x) refl
      ]
    ]
