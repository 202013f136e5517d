-- ===== src/Sensor/Mac.antt =====
-- internal/sensor/types.go: `NormalizeMAC`.
use home_metrics.Base.{
  ℕ, ◌≡◌, refl, sym, ap, ==_iff, ◌⊎◌, inl, inr, Bool, true, false, ◌&&◌, ◌||◌, [], ◌∷◌, map, arith,
  not, ◌==◌, subst, if◌then◌else◌, length, Bool-cases,
}
use home_metrics.Base.Text.{
  Text, in_range, is_space, trim_space, to_lower, NoSpaces, trim_space-NoSpaces,
}

unfoldable pub is_hex : ℕ → Bool
is_hex c = in_range b'0' b'9' c || in_range b'a' b'f' c

unfoldable pub is_separator : ℕ → Bool
is_separator c = (c == b'-') || (c == b':') || (c == b'.')

-- The replacer that deletes the separators.
unfoldable pub strip : Text → Text
strip [] = []
strip (c ∷ s) = let rest = strip s in if is_separator c then rest else c ∷ rest

unfoldable pub all_hex : Text → Bool
all_hex [] = true
all_hex (c ∷ s) = is_hex c && all_hex s

-- `strings.Join` of the pairs, with ":" between them.
unfoldable pub join_pairs : Text → Text
join_pairs (a ∷ b ∷ c ∷ s) = a ∷ b ∷ b':' ∷ join_pairs (c ∷ s)
join_pairs s = s

-- The empty text where `value` is no MAC address.
unfoldable pub normalize_mac : Text → Text
unfolding strip all_hex join_pairs
normalize_mac value =
    let compact = strip (map to_lower (trim_space value)) in
    if not (length compact == 12) then [] else if all_hex compact then join_pairs compact else []

-- `Spells ds s`: `s` is the digits `ds`, in any letter case, with separators put in anywhere.
pub data Spells : Text → Text → Type 0 where
  done : Spells [] []
  separator : {ds s : Text} (c : ℕ) → is_separator c ≡ true → Spells ds s → Spells ds (c ∷ s)
  digit :
      {ds s : Text} (c : ℕ)
      → is_hex (to_lower c) ≡ true
      → Spells ds s
      → Spells (to_lower c ∷ ds) (c ∷ s)

separator_plain : (c : ℕ) → is_separator c ≡ true → (is_space c ≡ false) × (to_lower c ≡ c)
unfolding is_separator is_space to_lower
separator_plain c h = ground arith

digit_plain :
    (c : ℕ)
    → is_hex (to_lower c) ≡ true
    → (is_space c ≡ false) × (is_separator (to_lower c) ≡ false)
unfolding is_separator is_space to_lower is_hex
digit_plain c h = ground arith

Spells-NoSpaces : {ds s : Text} → Spells ds s → NoSpaces s
Spells-NoSpaces done = tt
Spells-NoSpaces (separator c h r) = ((separator_plain c h).0, Spells-NoSpaces r)
Spells-NoSpaces (digit c h r) = ((digit_plain c h).0, Spells-NoSpaces r)

strip-Spells : {ds s : Text} → Spells ds s → strip (map to_lower s) ≡ ds
unfolding strip
strip-Spells done = refl
strip-Spells (separator c h r) = rw ((separator_plain c h).1, h) (strip-Spells r)
strip-Spells (digit c h r) = rw ((digit_plain c h).1) (ap (λ t. to_lower c ∷ t) (strip-Spells r))

Spells-all_hex : {ds s : Text} → Spells ds s → all_hex ds ≡ true
unfolding all_hex
Spells-all_hex done = refl
Spells-all_hex (separator c h r) = Spells-all_hex r
Spells-all_hex (digit c h r) = rw h (Spells-all_hex r)

-- However twelve hexadecimal digits are spelled, with "-", ":" or "." anywhere between them and in
-- either letter case, the normal form is the same: the lower-case digits in pairs with ":" between.
pub normalize_mac-Spells :
    (ds s : Text) → length ds ≡ 12 → Spells ds s → normalize_mac s ≡ join_pairs ds
unfolding normalize_mac
normalize_mac-Spells ds s h r =
    rw (trim_space-NoSpaces s (Spells-NoSpaces r), strip-Spells r, h, Spells-all_hex r)

lower_hex : (c : ℕ) → is_hex c ≡ true → to_lower c ≡ c
unfolding is_hex to_lower
lower_hex c h = ground arith

spell_digit : (c : ℕ) {ds s : Text} → is_hex c ≡ true → Spells ds s → Spells (c ∷ ds) (c ∷ s)
spell_digit c {ds} {s} h r =
    subst (λ d. Spells (d ∷ ds) (c ∷ s)) (lower_hex c h)
      (digit c (subst (λ d. is_hex d ≡ true) (sym (lower_hex c h)) h) r)

-- The joined form spells its own digits.
join_pairs-Spells : (ds : Text) → all_hex ds ≡ true → Spells ds (join_pairs ds)
unfolding join_pairs all_hex
join_pairs-Spells [] h = done
join_pairs-Spells (a ∷ []) h = spell_digit a (ground arith) done
join_pairs-Spells (a ∷ b ∷ []) h = spell_digit a (ground arith) (spell_digit b (ground arith) done)
join_pairs-Spells (a ∷ b ∷ c ∷ s) h = spell_digit a (ground arith) (
    spell_digit b (ground arith)
      (separator b':' (unfold is_separator in refl) (join_pairs-Spells (c ∷ s) (ground arith))))

abbrev HasDigits : Text → Type 0
HasDigits m = (ds : Text) × (length ds ≡ 12) × (all_hex ds ≡ true) × (m ≡ join_pairs ds)

-- The digits that a text keeps, where it is a MAC address.
pub normalize_mac-digits : (v : Text) → (normalize_mac v ≡ []) ⊎ HasDigits (normalize_mac v)
unfolding normalize_mac
normalize_mac-digits v =
    let ds = strip (map to_lower (trim_space v)) in
    elim (Bool-cases (length ds == 12)) [
      | inr n ↦ inl (rw n)
      | inl n ↦ elim (Bool-cases (all_hex ds)) [
        | inr h ↦ inl (rw (n, h))
        | inl h ↦ inr (ds, (==_iff _ 12).0 n, h, rw (n, h))
      ]
    ]

-- The normal form is a fixed point: normalising it again changes nothing, whatever the text was.
pub normalize_mac_idem : (v : Text) → normalize_mac (normalize_mac v) ≡ normalize_mac v
unfolding trim_space
normalize_mac_idem v = elim (normalize_mac-digits v) [
  | inl e ↦ rw e (unfold normalize_mac in refl)
  | inr (ds, n, h, e) ↦ rw e (normalize_mac-Spells ds _ n (join_pairs-Spells ds h))
]
