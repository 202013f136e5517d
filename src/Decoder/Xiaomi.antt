-- ===== src/Decoder/Xiaomi.antt =====
-- cmd/hm-cisco-iot-orchestrator-collector/decoder.go: the objects of a Xiaomi FE95 payload.
use native.Mathlib.Nat.{div-add-mod}
use home_metrics.Base.{
  ℕ, zero, suc, ◌+◌, ◌*◌, ◌/◌, ◌%◌, ◌≤◌, true, ◌≡◌, refl, ◌∙◌, List, [], ◌∷◌, ◌++◌, arith, length,
  length-append, take-append, drop-append, leb, ◌==◌, ==_iff, ◌&&◌, if◌then◌else◌, Bool-cases, inl,
  inr, Option, none, some, get_or, sym, subst,
}
use home_metrics.Base.Float.{Float64}
use home_metrics.Base.Int.{pos}
use home_metrics.Store.{coalesce}
use home_metrics.Decoder.{
  Bytes, int16, le16, le32, scaled, fe95_object, fe95_loop, decode_fe95, looks_like_fe95,
}
use home_metrics.Decoder.Values.{Values, no_values}

pub record Object : Type 0 where
  pub id : ℕ
  pub value : Bytes

-- Independent of the code: an object is its identifier, the low byte first, its length and its value.
unfoldable pub encode_objects : List Object → Bytes
encode_objects [] = []
encode_objects (o ∷ os) = o.id % 256 ∷ o.id / 256 ∷ length o.value ∷ (o.value ++ encode_objects os)

ap4 :
    {A B : Type 0} (f : A → A → A → A → B) {a a' b b' c c' d d' : A}
    → a ≡ a'
    → b ≡ b'
    → c ≡ c'
    → d ≡ d'
    → f a b c d ≡ f a' b' c' d'
ap4 f p q r s = rw (p, q, r, s) refl

module _ (fl : Float64) where
  -- The objects take effect one after the other.
  unfoldable apply_objects : List Object → Values fl.F → Values fl.F
  apply_objects [] r = r
  apply_objects (o ∷ os) r = apply_objects os (fe95_object fl o.id o.value r)

  fe95_step :
      (k id : ℕ) (xs rest : Bytes) (r : Values fl.F)
      → fe95_loop fl (suc k) (id % 256 ∷ id / 256 ∷ length xs ∷ (xs ++ rest)) r
        ≡ fe95_loop fl k rest (fe95_object fl id xs r)
  unfolding fe95_loop
  fe95_step k id xs rest r =
      let whole : id % 256 + id / 256 * 256 ≡ id = omega (arith, div-add-mod id 256) in
      rw (whole, take-append xs rest, drop-append xs rest) (ground (arith, length-append xs rest))

  fe95_loop-encode :
      (os : List Object) (k : ℕ) (r : Values fl.F)
      → length (encode_objects os) ≤ k
      → fe95_loop fl k (encode_objects os) r ≡ apply_objects os r
  unfolding encode_objects apply_objects fe95_loop
  fe95_loop-encode [] zero r h = refl
  fe95_loop-encode [] (suc k) r h = refl
  fe95_loop-encode (o ∷ os) zero r h = absurd (omega arith)
  fe95_loop-encode (o ∷ os) (suc k) r h =
      fe95_step k o.id o.value (encode_objects os) r
      ∙ fe95_loop-encode os k (fe95_object fl o.id o.value r)
          (omega (arith, length-append o.value (encode_objects os)))

  -- Independent of the code: what the last object says that has an identifier and a value of at least
  -- `size` bytes; none if there is no such object.
  abbrev said : ℕ → ℕ → (Bytes → fl.F) → Object → Option fl.F
  said id size read o =
      if o.id == id && leb size (length o.value) then some (read o.value) else none

  unfoldable pub last_of : ℕ → ℕ → (Bytes → fl.F) → List Object → Option fl.F
  last_of id size read [] = none
  last_of id size read (o ∷ os) = coalesce (last_of id size read os) (said id size read o)

  abbrev celsius : Bytes → fl.F
  celsius bs = scaled fl (int16 (le16 (get_or bs 0 0) (get_or bs 1 0))) 10 1

  abbrev brightness : Bytes → fl.F
  brightness bs = fl.of_int (pos (le32 (get_or bs 0 0) (get_or bs 1 0) (get_or bs 2 0) 0))

  abbrev moisture : Bytes → fl.F
  moisture bs = fl.of_int (pos (get_or bs 0 0))

  abbrev conductivity : Bytes → fl.F
  conductivity bs = fl.of_int (pos (le16 (get_or bs 0 0) (get_or bs 1 0)))

  -- Four values in place of those that are there.
  abbrev over : Option fl.F → Option fl.F → Option fl.F → Option fl.F → Values fl.F → Values fl.F
  over t l m c r = record r {
    temperature_c = coalesce t r.temperature_c;
    lux = coalesce l r.lux;
    soil_moisture_percent = coalesce m r.soil_moisture_percent;
    conductivity_us_cm = coalesce c r.conductivity_us_cm;
  }

  -- The values of the metrics that objects tell, each by the last object of its kind.
  unfoldable pub values_of : List Object → Values fl.F
  unfolding last_of
  values_of os = record (no_values fl.F) {
    temperature_c = last_of 0x1004 2 celsius os;
    lux = last_of 0x1007 3 brightness os;
    soil_moisture_percent = last_of 0x1008 1 moisture os;
    conductivity_us_cm = last_of 0x1009 2 conductivity os;
  }

  abbrev overlaid : Object → Values fl.F → Values fl.F
  overlaid o r =
      over (said 0x1004 2 celsius o) (said 0x1007 3 brightness o) (said 0x1008 1 moisture o)
        (said 0x1009 2 conductivity o) r

  abbrev IsOverlaid : Bytes → Values fl.F → ℕ → Type 0
  IsOverlaid v r id = fe95_object fl id v r ≡ overlaid (record { id = id; value = v }) r

  temperature_object : (v : Bytes) (r : Values fl.F) → IsOverlaid v r 0x1004
  unfolding fe95_object
  temperature_object v r = elim (Bool-cases (leb 2 (length v))) [
    | inl b ↦ rw b refl
    | inr b ↦ rw b refl
  ]

  lux_object : (v : Bytes) (r : Values fl.F) → IsOverlaid v r 0x1007
  unfolding fe95_object
  lux_object v r = elim (Bool-cases (leb 3 (length v))) [ inl b ↦ rw b refl | inr b ↦ rw b refl ]

  moisture_object : (v : Bytes) (r : Values fl.F) → IsOverlaid v r 0x1008
  unfolding fe95_object
  moisture_object v r = elim (Bool-cases (leb 1 (length v))) [
    | inl b ↦ rw b refl
    | inr b ↦ rw b refl
  ]

  conductivity_object : (v : Bytes) (r : Values fl.F) → IsOverlaid v r 0x1009
  unfolding fe95_object
  conductivity_object v r = elim (Bool-cases (leb 2 (length v))) [
    | inl b ↦ rw b refl
    | inr b ↦ rw b refl
  ]

  fe95_object-IsOverlaid : (id : ℕ) (v : Bytes) (r : Values fl.F) → IsOverlaid v r id
  unfolding fe95_object
  fe95_object-IsOverlaid id v r = elim (Bool-cases (id == 0x1004)) [
    | inl e ↦ subst (λ i. IsOverlaid v r i) (sym ((==_iff id 0x1004).0 e)) (temperature_object v r)
    | inr e ↦ elim (Bool-cases (id == 0x1007)) [
      | inl f ↦ subst (λ i. IsOverlaid v r i) (sym ((==_iff id 0x1007).0 f)) (lux_object v r)
      | inr f ↦ elim (Bool-cases (id == 0x1008)) [
        | inl g ↦ subst (λ i. IsOverlaid v r i) (sym ((==_iff id 0x1008).0 g)) (moisture_object v r)
        | inr g ↦ elim (Bool-cases (id == 0x1009)) [
          | inl h ↦
              subst (λ i. IsOverlaid v r i) (sym ((==_iff id 0x1009).0 h)) (conductivity_object v r)
          | inr h ↦ rw (e, f, g, h) refl
        ]
      ]
    ]
  ]

  coalesce_assoc : (a b c : Option fl.F) → coalesce a (coalesce b c) ≡ coalesce (coalesce a b) c
  coalesce_assoc none b c = refl
  coalesce_assoc (some v) b c = refl

  coalesce-none : (a : Option fl.F) → coalesce a none ≡ a
  coalesce-none none = refl
  coalesce-none (some v) = refl

  apply_objects-over :
      (os : List Object) (r : Values fl.F)
      → apply_objects os r
        ≡ over
            (last_of 0x1004 2 celsius os)
            (last_of 0x1007 3 brightness os)
            (last_of 0x1008 1 moisture os)
            (last_of 0x1009 2 conductivity os)
            r
  unfolding apply_objects last_of
  apply_objects-over [] r = refl
  apply_objects-over (o ∷ os) r =
      apply_objects-over os (fe95_object fl o.id o.value r)
      ∙ rw (fe95_object-IsOverlaid o.id o.value r) (
          ap4
            (λ t l m c. record r {
              temperature_c = t;
              lux = l;
              soil_moisture_percent = m;
              conductivity_us_cm = c;
            })
            (coalesce_assoc (last_of 0x1004 2 celsius os) (said 0x1004 2 celsius o) r.temperature_c)
            (coalesce_assoc (last_of 0x1007 3 brightness os) (said 0x1007 3 brightness o) r.lux)
            (coalesce_assoc (last_of 0x1008 1 moisture os) (said 0x1008 1 moisture o)
              r.soil_moisture_percent)
            (coalesce_assoc (last_of 0x1009 2 conductivity os) (said 0x1009 2 conductivity o)
              r.conductivity_us_cm))

  apply_objects-values_of : (os : List Object) → apply_objects os (no_values fl.F) ≡ values_of os
  unfolding values_of
  apply_objects-values_of os =
      apply_objects-over os (no_values fl.F)
      ∙ ap4
          (λ t l m c. record (no_values fl.F) {
            temperature_c = t;
            lux = l;
            soil_moisture_percent = m;
            conductivity_us_cm = c;
          })
          (coalesce-none (last_of 0x1004 2 celsius os))
          (coalesce-none (last_of 0x1007 3 brightness os))
          (coalesce-none (last_of 0x1008 1 moisture os))
          (coalesce-none (last_of 0x1009 2 conductivity os))

  -- A Flower Care frame: the four bytes of its header, the eight of its counter and address, then
  -- the objects.
  unfoldable pub flower_care_frame : ℕ → ℕ → ℕ → ℕ → ℕ → ℕ → ℕ → ℕ → List Object → Bytes
  flower_care_frame a b c d e f g h os =
      0x71 ∷ 0x20 ∷ 0x98 ∷ 0x00 ∷ a ∷ b ∷ c ∷ d ∷ e ∷ f ∷ g ∷ h ∷ encode_objects os

  frame-looks_like_fe95 :
      (a b c d e f g h : ℕ) (o : Object) (os : List Object)
      → looks_like_fe95 (flower_care_frame a b c d e f g h (o ∷ os)) ≡ true
  unfolding looks_like_fe95 flower_care_frame encode_objects
  frame-looks_like_fe95 a b c d e f g h o os = ground arith

  -- From a Flower Care frame, `decodeXiaomiFE95` gives each of the four metrics the value of the last
  -- object that has its identifier and is long enough for it, and none where there is no such object;
  -- it gives no other metric a value.
  pub decode_fe95-encode :
      (a b c d e f g h : ℕ) (o : Object) (os : List Object)
      → decode_fe95 fl (flower_care_frame a b c d e f g h (o ∷ os)) ≡ values_of (o ∷ os)
  unfolding decode_fe95 flower_care_frame
  decode_fe95-encode a b c d e f g h o os =
      let frame = flower_care_frame a b c d e f g h (o ∷ os) in
      rw (decode_fe95, frame-looks_like_fe95 a b c d e f g h o os)
        (fe95_loop-encode (o ∷ os) (length frame) (no_values fl.F) (omega arith)
          ∙ apply_objects-values_of (o ∷ os))
