-- ===== src/Spaces/Uploads.antt =====
-- cmd/hm-cisco-spaces-collector/processor.go: the times of the uploads of a sensor. Lists of events
-- and uploads have the newest first.
use home_metrics.Base.{
  ℕ, ◌+◌, ◌≤◌, Bool, true, false, Bool-cases, ◌≡◌, refl, subst, sym, ap, ◌∙◌, ◌⊎◌, inl, inr, List,
  [], ◌∷◌, Option, none, some, not, if◌then◌else◌, All, arith,
}
use home_metrics.Base.Int.{pos, leb_ℤ, ltb_ℤ, pos_part}
use home_metrics.Base.Float.{Float64}
use home_metrics.Base.Time.{Time, elapsed}
use home_metrics.Base.Text.{Text, codes, eq_text, eq_text_refl, eq_text→eq, trim_space}
use home_metrics.Sensor
use home_metrics.Store.{is_blank}
use home_metrics.Spaces.{
  Config, Telemetry, FirehoseEvent, SensorReading, normalize_mac, device_id_conflicts_with_mac,
}
use home_metrics.Spaces.Process.{
  Metric, Processor, new_processor, Ignored, Processed, accepted, ignored, unix_milli,
  extract_values, add_value, add_values, build_reading, too_soon, upload, process_event,
  upload_interval, temperature,
}

-- The time of an event.
abbrev pub time_of : {F : Type 0} → FirehoseEvent F → Time
time_of e = unix_milli (pos_part e.record_ts)

module _ (fl : Float64) (c : Config) where
  add_value-last_uploads :
      (mac : Text) (ts : Time) (name : Metric) (v : fl.F) (p : Processor fl.F)
      → (add_value fl c mac ts name v p).last_uploads ≡ p.last_uploads
  unfolding add_value
  add_value-last_uploads mac ts name v p = elim (Bool-cases (fl.is_finite v)) [
    | inl e ↦ rw e refl
    | inr e ↦ rw e refl
  ]

  add_values-last_uploads :
      (mac : Text) (ts : Time) (values : List (Metric × fl.F)) (p : Processor fl.F)
      → (add_values fl c mac ts values p).last_uploads ≡ p.last_uploads
  unfolding add_values
  add_values-last_uploads mac ts [] p = refl
  add_values-last_uploads mac ts ((name, v) ∷ values) p =
      add_values-last_uploads mac ts values (add_value fl c mac ts name v p)
      ∙ add_value-last_uploads mac ts name v p

  abbrev uploaded : Text → Time → Processor fl.F → Text → Option Time
  uploaded mac ts p = λ m. if eq_text mac m then some ts else p.last_uploads m

  -- An event either is ignored and leaves the times of the uploads, or is not too soon.
  abbrev Step : Processor fl.F → Time → Processor fl.F × Processed fl.F → Type 0
  Step p ts result =
      ((x : Ignored) × (result.1 ≡ ignored x) × (result.0.last_uploads ≡ p.last_uploads))
      ⊎ ((r : SensorReading fl.F) × (result.1 ≡ accepted r)
          × (too_soon fl c (p.last_uploads r.reading.mac) ts ≡ false)
          × (result.0.last_uploads ≡ uploaded r.reading.mac ts p))

  decided-Step :
      (a b : Bool) (p q : Processor fl.F) (ts : Time) (r : SensorReading fl.F) (x : Ignored)
      → q.last_uploads ≡ p.last_uploads
      → too_soon fl c (q.last_uploads r.reading.mac) ts ≡ a
      → Step p ts (
          if a
          then (q, ignored upload_interval)
          else if b
          then (q, ignored x)
          else (record q { last_uploads = uploaded r.reading.mac ts q }, accepted r))
  decided-Step true b p q ts r x same e = inl (upload_interval, refl, same)
  decided-Step false true p q ts r x same e = inl (x, refl, same)
  decided-Step false false p q ts r x same e =
      let mac = r.reading.mac in
      inr (
        r,
        refl,
        ap (λ (t : Text → Option Time). too_soon fl c (t mac) ts) (sym same) ∙ e,
        ap (λ (t : Text → Option Time). λ m. if eq_text mac m then some ts else t m) same,
      )

  upload-Step :
      (mac : Text) (ts : Time) (item : Telemetry fl.F) (p : Processor fl.F)
      → Step p ts (upload fl c mac ts item p)
  unfolding upload build_reading
  upload-Step mac ts item p =
      let values = extract_values fl c (p.last_metrics mac temperature) mac item in
      let q = add_values fl c mac ts values p in
      let r = build_reading fl c q mac (trim_space item.device_info.label) ts in
      decided-Step (too_soon fl c (q.last_uploads mac) ts) (Sensor.is_empty r.reading) p q ts r _
        (add_values-last_uploads mac ts values p) refl

  checked-Step :
      (a b d e : Bool) (p : Processor fl.F) (ts : Time) (w x y z : Ignored)
      (done : Processor fl.F × Processed fl.F)
      → Step p ts done
      → Step p ts (
          if a
          then (p, ignored w)
          else if b
          then (p, ignored x)
          else if d
          then (p, ignored y)
          else if e
          then (p, ignored z)
          else done)
  checked-Step true b d e p ts w x y z done h = inl (w, refl, refl)
  checked-Step false true d e p ts w x y z done h = inl (x, refl, refl)
  checked-Step false false true e p ts w x y z done h = inl (y, refl, refl)
  checked-Step false false false true p ts w x y z done h = inl (z, refl, refl)
  checked-Step false false false false p ts w x y z done h = h

  process_event-Step :
      (event : FirehoseEvent fl.F) (p : Processor fl.F)
      → Step p (time_of event) (process_event fl c event p)
  unfolding process_event
  process_event-Step event p =
      let item = event.iot_telemetry in
      let mac = normalize_mac item.device_info.device_mac_address in
      checked-Step (not (eq_text event.event_type (codes "IOT_TELEMETRY")))
        (leb_ℤ event.record_ts (pos 0)) (is_blank mac)
        (device_id_conflicts_with_mac item.device_info) p (time_of event) _ _ _ _
        (upload fl c mac (time_of event) item p) (upload-Step mac (time_of event) item p)

  -- The processor after events, and the uploads that they have led to, each with its sensor.
  unfoldable pub processor_after : List (FirehoseEvent fl.F) → Processor fl.F
  unfolding process_event
  processor_after [] = new_processor fl.F
  processor_after (e ∷ es) = (process_event fl c e (processor_after es)).0

  abbrev uploaded_by : Processed fl.F → Time → List (Text × Time) → List (Text × Time)
  uploaded_by (accepted r) ts us = (r.reading.mac, ts) ∷ us
  uploaded_by (ignored x) ts us = us

  unfoldable pub uploads : List (FirehoseEvent fl.F) → List (Text × Time)
  unfolding processor_after
  uploads [] = []
  uploads (e ∷ es) =
      uploaded_by (process_event fl c e (processor_after es)).1 (time_of e) (uploads es)

-- Each upload is at least `n` later than every one before it of the same sensor.
abbrev pub AreApart : ℕ → List (Text × Time) → Type 0
AreApart n [] = Unit {0}
AreApart n (u ∷ us) = All (λ v. eq_text u.0 v.0 ≡ true → v.1 + n ≤ u.1) us × AreApart n us

-- The last upload of a sensor is not before any other.
abbrev NotAfter : Option Time → Time → Type 0
NotAfter none ts = ⊥
NotAfter (some last) ts = ts ≤ last

abbrev AreRemembered : (Text → Option Time) → List (Text × Time) → Type 0
AreRemembered lasts us = All (λ u. NotAfter (lasts u.0) u.1) us

module _ (fl : Float64) (c : Config) (n : ℕ) (interval : c.upload_interval ≡ pos n) where
  late_by : (last ts : Time) → ltb_ℤ (elapsed ts last) (pos n) ≡ false → last + n ≤ ts
  unfolding elapsed
  late_by last ts h = ground arith

  late_enough :
      (last : Option Time) (ts t : Time)
      → too_soon fl c last ts ≡ false
      → NotAfter last t
      → t + n ≤ ts
  unfolding too_soon
  late_enough none ts t h k = elim k [ ]
  late_enough (some last) ts t h k = omega (arith, late_by last ts (rw interval at h))

  late_for :
      (lasts : Text → Option Time) (mac other : Text) (ts t : Time)
      → too_soon fl c (lasts mac) ts ≡ false
      → NotAfter (lasts other) t
      → eq_text mac other ≡ true
      → t + n ≤ ts
  late_for lasts mac other ts t h k e =
      late_enough (lasts mac) ts t h
        (subst (λ m. NotAfter (lasts m) t) (sym (eq_text→eq mac other e)) k)

  later_than-All :
      (lasts : Text → Option Time) (mac : Text) (ts : Time) (us : List (Text × Time))
      → too_soon fl c (lasts mac) ts ≡ false
      → AreRemembered lasts us
      → All (λ v. eq_text mac v.0 ≡ true → v.1 + n ≤ ts) us
  later_than-All lasts mac ts [] h k = tt
  later_than-All lasts mac ts (v ∷ us) h k =
      (late_for lasts mac v.0 ts v.1 h k.0, later_than-All lasts mac ts us h k.1)

  still_remembered :
      (lasts : Text → Option Time) (mac : Text) (ts : Time) (us : List (Text × Time))
      → too_soon fl c (lasts mac) ts ≡ false
      → AreRemembered lasts us
      → AreRemembered (λ m. if eq_text mac m then some ts else lasts m) us
  still_remembered lasts mac ts [] h k = tt
  still_remembered lasts mac ts (v ∷ us) h k = (
    elim (Bool-cases (eq_text mac v.0)) [
      | inl e ↦ rw e (omega (arith, late_for lasts mac v.0 ts v.1 h k.0 e))
      | inr e ↦ rw e k.0
    ],
    still_remembered lasts mac ts us h k.1,
  )

  AreApart-Step :
      (p : Processor fl.F) (ts : Time) (result : Processor fl.F × Processed fl.F)
      (us : List (Text × Time))
      → Step fl c p ts result
      → AreApart n us
      → AreRemembered p.last_uploads us
      → AreApart n (uploaded_by fl c result.1 ts us)
        × AreRemembered result.0.last_uploads (uploaded_by fl c result.1 ts us)
  AreApart-Step p ts result us (inl (x, e, same)) h k =
      rw e (h, subst (λ l. AreRemembered l us) (sym same) k)
  AreApart-Step p ts result us (inr (r, e, late, up)) h k =
      let mac = r.reading.mac in
      rw e (
        (later_than-All p.last_uploads mac ts us late k, h),
        subst (λ l. AreRemembered l ((mac, ts) ∷ us)) (sym up)
            (rw (eq_text_refl mac) (omega arith), still_remembered p.last_uploads mac ts us late k),
      )

  uploads-both :
      (es : List (FirehoseEvent fl.F))
      → AreApart n (uploads fl c es)
        × AreRemembered (processor_after fl c es).last_uploads (uploads fl c es)
  unfolding uploads processor_after
  uploads-both [] = (tt, tt)
  uploads-both (e ∷ es) =
      AreApart-Step (processor_after fl c es) (time_of e)
        (process_event fl c e (processor_after fl c es)) (uploads fl c es)
        (process_event-Step fl c e (processor_after fl c es)) (uploads-both es).0
        (uploads-both es).1

  -- Whatever events arrive, in whatever order of their times: the uploads of one sensor have times
  -- that are in order and apart by the configured interval at least.
  pub uploads-AreApart : (es : List (FirehoseEvent fl.F)) → AreApart n (uploads fl c es)
  uploads-AreApart es = (uploads-both es).0
