-- ===== src/Registry/Loaded.antt =====
-- cmd/hm-ble-collector/main.go and cmd/hm-cisco-iot-orchestrator-collector/config.go: what a registry
-- that `loadTargetRegistry` returned has in it.
use home_metrics.Base.{
  Bool, true, false, Bool-cases, ◌≡◌, refl, subst, sym, ap, ◌∙◌, inl, inr, List, [], ◌∷◌, ◌++◌,
  if◌then◌else◌, arith,
}
use mathlib.Core.List.{append_assoc, append-nil}
use home_metrics.Base.Text.{Text, eq_text, eq_text_sym}
use home_metrics.Sensor.Mac.{normalize_mac}
use home_metrics.Store.{is_blank}
use home_metrics.Registry.{
  TargetDevice, TargetRegistry, LoadResult, RegistryError, ok, err, Verdict, reject, foreign,
  register, is_enabled, has_mac, registered, with_mac, proceed, load_loop, mac_required,
  duplicate_mac,
}

-- The enabled devices of a list.
abbrev pub only_enabled : List TargetDevice → List TargetDevice
only_enabled [] = []
only_enabled (d ∷ ds) = if is_enabled d.enabled then d ∷ only_enabled ds else only_enabled ds

-- No two devices of a list have a MAC in common.
abbrev pub AreDistinct : List TargetDevice → Type 0
AreDistinct [] = Unit {0}
AreDistinct (d ∷ ds) = (has_mac d.mac ds ≡ false) × AreDistinct ds

only_enabled-snoc :
    (ds : List TargetDevice) (d : TargetDevice)
    → only_enabled (ds ++ d ∷ [])
      ≡ (if is_enabled d.enabled then only_enabled ds ++ d ∷ [] else only_enabled ds)
only_enabled-snoc [] d = refl
only_enabled-snoc (x ∷ ds) d = elim (Bool-cases (is_enabled x.enabled)) [
  | inl e ↦ rw e (
      rw (only_enabled-snoc ds d)
        (elim (Bool-cases (is_enabled d.enabled)) [ inl f ↦ rw f refl | inr f ↦ rw f refl ]))
  | inr e ↦ rw e (only_enabled-snoc ds d)
]

has_mac-snoc :
    (mac : Text) (ds : List TargetDevice) (d : TargetDevice)
    → has_mac mac ds ≡ false
    → eq_text d.mac mac ≡ false
    → has_mac mac (ds ++ d ∷ []) ≡ false
has_mac-snoc mac [] d h e = rw e refl
has_mac-snoc mac (x ∷ ds) d h e = ground (arith, has_mac-snoc mac ds d)

AreDistinct-snoc :
    (ds : List TargetDevice) (d : TargetDevice)
    → AreDistinct ds
    → has_mac d.mac ds ≡ false
    → AreDistinct (ds ++ d ∷ [])
AreDistinct-snoc [] d h e = (refl, tt)
AreDistinct-snoc (x ∷ ds) d h e = (
  has_mac-snoc x.mac ds d h.0 (ground (arith, eq_text_sym x.mac d.mac)),
  AreDistinct-snoc ds d h.1 (ground arith),
)

passed :
    (a b : Bool) (x y : RegistryError) (rest : LoadResult) (s : TargetRegistry)
    → (if a then err x else if b then err y else rest) ≡ ok s
    → (a ≡ false) × (b ≡ false) × (rest ≡ ok s)
passed true b x y rest s e = cc
passed false true x y rest s e = cc
passed false false x y rest s e = (refl, refl, e)

module _ (judge : TargetDevice → Verdict) where
  -- The devices of the file that a collector owns, as it registers them.
  abbrev pub kept_of : Verdict → List TargetDevice → List TargetDevice
  kept_of (reject e) ds = ds
  kept_of foreign ds = ds
  kept_of (register d) ds = d ∷ ds

  abbrev pub owned : List TargetDevice → List TargetDevice
  owned [] = []
  owned (d ∷ ds) = kept_of (judge (with_mac d)) (owned ds)

  -- A loop that ends well has passed its first device.
  load_loop-step :
      (d : TargetDevice) (ds : List TargetDevice) (r s : TargetRegistry)
      → load_loop judge (d ∷ ds) r ≡ ok s
      → (is_blank (normalize_mac d.mac) ≡ false)
        × (has_mac (normalize_mac d.mac) r.all ≡ false)
        × (proceed judge (judge (with_mac d)) r (λ t. load_loop judge ds t) ≡ ok s)
  unfolding load_loop
  load_loop-step d ds r s e =
      passed (is_blank (normalize_mac d.mac)) (has_mac (normalize_mac d.mac) r.all) mac_required
        (duplicate_mac (normalize_mac d.mac)) _ s e

  proceed-owned :
      (v : Verdict) (ds : List TargetDevice) (r s : TargetRegistry)
      → ((t : TargetRegistry) → load_loop judge ds t ≡ ok s → s.all ≡ t.all ++ owned ds)
      → proceed judge v r (λ t. load_loop judge ds t) ≡ ok s
      → s.all ≡ r.all ++ kept_of v (owned ds)
  proceed-owned (reject x) ds r s h e = cc
  proceed-owned foreign ds r s h e = h r e
  proceed-owned (register d) ds r s h e =
      h (registered d r) e ∙ append_assoc r.all (d ∷ []) (owned ds)

  load_loop-owned :
      (ds : List TargetDevice) (r s : TargetRegistry)
      → load_loop judge ds r ≡ ok s
      → s.all ≡ r.all ++ owned ds
  load_loop-owned [] r s e =
      let same : s ≡ r = unfold load_loop in (cc) in rw same (sym (append-nil r.all))
  load_loop-owned (d ∷ ds) r s e =
      proceed-owned (judge (with_mac d)) ds r s (λ t. load_loop-owned ds t s)
        (load_loop-step d ds r s e).2

  -- What holds of a registry at each turn.
  abbrev pub IsRegistry : TargetRegistry → Type 0
  IsRegistry r = (r.enabled ≡ only_enabled r.all) × AreDistinct r.all

  registered-IsRegistry :
      (d : TargetDevice) (r : TargetRegistry)
      → IsRegistry r
      → has_mac d.mac r.all ≡ false
      → IsRegistry (registered d r)
  registered-IsRegistry d r h e = (
    elim (Bool-cases (is_enabled d.enabled)) [
      | inl f ↦ rw (only_enabled-snoc r.all d, f) (ap (λ (t : List TargetDevice). t ++ d ∷ []) h.0)
      | inr f ↦ rw (only_enabled-snoc r.all d, f) h.0
    ],
    AreDistinct-snoc r.all d h.1 e,
  )

  module _ (keeps : (d e : TargetDevice) → judge d ≡ register e → e.mac ≡ d.mac) where
    proceed-IsRegistry :
        (d : TargetDevice) (v : Verdict) (ds : List TargetDevice) (r s : TargetRegistry)
        → judge d ≡ v
        → has_mac d.mac r.all ≡ false
        → IsRegistry r
        → ((t : TargetRegistry) → load_loop judge ds t ≡ ok s → IsRegistry t → IsRegistry s)
        → proceed judge v r (λ t. load_loop judge ds t) ≡ ok s
        → IsRegistry s
    proceed-IsRegistry d (reject x) ds r s j f i h e = cc
    proceed-IsRegistry d foreign ds r s j f i h e = h r e i
    proceed-IsRegistry d (register x) ds r s j f i h e =
        h (registered x r) e (registered-IsRegistry x r i (rw (keeps d x j) f))

    load_loop-IsRegistry :
        (ds : List TargetDevice) (r s : TargetRegistry)
        → load_loop judge ds r ≡ ok s
        → IsRegistry r
        → IsRegistry s
    load_loop-IsRegistry [] r s e i =
        let same : r ≡ s = unfold load_loop in (cc) in subst IsRegistry same i
    load_loop-IsRegistry (d ∷ ds) r s e i =
        let step = load_loop-step d ds r s e in
        proceed-IsRegistry (with_mac d) (judge (with_mac d)) ds r s refl step.1 i
          (λ t. load_loop-IsRegistry ds t s) step.2

    -- What a registry has in it that was loaded from none.
    pub load_loop-loaded :
        (ds : List TargetDevice) (s : TargetRegistry)
        → load_loop judge ds (record { all = []; enabled = [] }) ≡ ok s
        → (s.all ≡ owned ds) × (s.enabled ≡ only_enabled s.all) × AreDistinct s.all
    load_loop-loaded ds s e =
        let i = load_loop-IsRegistry ds (record { all = []; enabled = [] }) s e (refl, tt) in
        (load_loop-owned ds (record { all = []; enabled = [] }) s e, i.0, i.1)
