-- ===== src/Echonet/Request.antt =====
-- cmd/hm-echonet-collector/main.go: `requestAndStore` after its request is sent. The turns of
-- its loop are a list: the time that the deadline is compared with, and what the read then gives.
use home_metrics.Echonet.Esv
use home_metrics.Base.{
  ℕ, Bool, true, false, ◌≡◌, refl, sym, ◌∙◌, ap, List, [], ◌∷◌, ◌++◌, ◌==◌, ◌&&◌, ◌||◌, not, ◌⊎◌,
  inl, inr, arith, if◌then◌else◌, length, ltb, ltb→lt, ◌<◌, Bool-cases,
}
use home_metrics.Base.Time.{Time, truncate_minute}
use home_metrics.Base.Text.{Text}
use home_metrics.Base.Float.{Float64}
use home_metrics.Echonet.{Bytes, Eoj, Frame, FrameError, Result, ok, err, parse_frame}
use home_metrics.Echonet.Readings.{EnergyReading, decode_readings}

-- One `ReadFromUDP`: a datagram with its time, a timeout (with whether the context is done by then), or an error.
pub data Receipt : Type 0 where
  datagram : Time → Bytes → Receipt
  read_timeout : Bool → Receipt
  read_failure : Receipt

pub record Turn : Type 0 where
  pub checked : Time
  pub receipt : Receipt

pub data Answer (F : Type 0) : Type 0 where
  stored : List (EnergyReading F) → Answer F
  store_failed : Answer F
  not_accepted : Eoj → Answer F
  cancelled : Answer F
  read_failed : Answer F
  timed_out : Answer F

Result-cases :
    {E : Type 0} {A : Type 0} (r : Result E A) → ((a : A) × (r ≡ ok a)) ⊎ ((e : E) × (r ≡ err e))
Result-cases (ok a) = inl (a, refl)
Result-cases (err e) = inr (e, refl)

-- `upsert` stands for `upsertReadings`: whether the database took the readings.
module _ (fl : Float64) (upsert : List (EnergyReading fl.F) → Bool) (tid : ℕ)
    (device_key : Text) where
  -- What the loop does with a frame: goes on, or returns.
  unfoldable pub answer_frame : Time → Frame → Answer fl.F → Answer fl.F
  unfolding decode_readings
  answer_frame now f more =
      if not (f.tid == tid) && not (f.esv == Esv.inf)
      then more
      else if f.esv == Esv.get_sna
      then not_accepted f.seoj
      else if not (f.esv == Esv.get_res) && not (f.esv == Esv.inf)
      then more
      else if length (decode_readings fl (truncate_minute now) device_key f) == 0
      then more
      else if upsert (decode_readings fl (truncate_minute now) device_key f)
      then stored (decode_readings fl (truncate_minute now) device_key f)
      else store_failed

  -- A turn that the deadline lets begin.
  abbrev pub received : Receipt → Answer fl.F → Answer fl.F
  received read_failure more = read_failed
  received (read_timeout true) more = cancelled
  received (read_timeout false) more = more
  received (datagram now d) more = elim (parse_frame d) [
    | err e ↦ more
    | ok f ↦ answer_frame now f more
  ]

  unfoldable pub await_answer : Time → List Turn → Answer fl.F
  unfolding answer_frame parse_frame
  await_answer deadline [] = timed_out
  await_answer deadline (t ∷ turns) =
      let more = await_answer deadline turns in
      if ltb t.checked deadline then received t.receipt more else timed_out

  -- A frame that answers the request: it carries the request's transaction number or is a
  -- notification, it is a response to a Get or a notification, and it has readings, which were stored.
  unfoldable pub Answers : List (EnergyReading fl.F) → Time → Frame → Type 0
  Answers rs now f =
      ((f.tid == tid) || (f.esv == Esv.inf) ≡ true)
      × ((f.esv == Esv.get_res) || (f.esv == Esv.inf) ≡ true)
      × (decode_readings fl (truncate_minute now) device_key f ≡ rs)
      × ((length rs == 0) ≡ false)
      × (upsert rs ≡ true)

  answer_frame-stored :
      (now : Time) (f : Frame) (more : Answer fl.F) (rs : List (EnergyReading fl.F))
      → answer_frame now f more ≡ stored rs
      → (more ≡ stored rs) ⊎ Answers rs now f
  unfolding answer_frame Answers
  answer_frame-stored now f more rs h = ground arith

  -- In a turn that began before the deadline, a datagram came whose frame answers the request.
  unfoldable pub IsAnswered : Time → List (EnergyReading fl.F) → List Turn → Type 0
  IsAnswered deadline rs turns =
      (front back : List Turn) × (at now : Time) × (d : Bytes) × (f : Frame) × (turns
        ≡ front ++ record { checked = at; receipt = datagram now d } ∷ back)
      × (at < deadline)
      × (parse_frame d ≡ ok f)
      × Answers rs now f

  received-ok :
      (now : Time) (d : Bytes) (f : Frame) (more : Answer fl.F)
      → parse_frame d ≡ ok f
      → received (datagram now d) more ≡ answer_frame now f more
  received-ok now d f more p = rw (p, received) refl

  received-err :
      (now : Time) (d : Bytes) (e : FrameError) (more : Answer fl.F)
      → parse_frame d ≡ err e
      → received (datagram now d) more ≡ more
  received-err now d e more p = rw (p, received) refl

  received-stored :
      (r : Receipt) (more : Answer fl.F) (rs : List (EnergyReading fl.F))
      → received r more ≡ stored rs
      → (more ≡ stored rs)
        ⊎ ((now : Time) × (d : Bytes) × (f : Frame) × (r ≡ datagram now d)
            × (parse_frame d ≡ ok f)
            × Answers rs now f)
  received-stored read_failure more rs h = ground arith
  received-stored (read_timeout true) more rs h = ground arith
  received-stored (read_timeout false) more rs h = inl h
  received-stored (datagram now d) more rs h = elim (Result-cases (parse_frame d)) [
    | inr (e, p) ↦ inl (sym (received-err now d e more p) ∙ h)
    | inl (f, p) ↦ elim (answer_frame-stored now f more rs (sym (received-ok now d f more p) ∙ h)) [
      | inl m ↦ inl m
      | inr answers ↦ inr (now, d, f, refl, p, answers)
    ]
  ]

  later :
      (deadline : Time) (t : Turn) (rs : List (EnergyReading fl.F)) (turns : List Turn)
      → IsAnswered deadline rs turns
      → IsAnswered deadline rs (t ∷ turns)
  unfolding IsAnswered
  later deadline t rs turns (front, back, at, now, d, f, e, l, p, a) =
      (t ∷ front, back, at, now, d, f, ap (λ u. t ∷ u) e, l, p, a)

  in_time :
      (deadline : Time) (t : Turn) (turns : List Turn)
      → ltb t.checked deadline ≡ true
      → await_answer deadline (t ∷ turns) ≡ received t.receipt (await_answer deadline turns)
  unfolding await_answer
  in_time deadline t turns b = rw (b, await_answer) refl

  too_late :
      (deadline : Time) (t : Turn) (turns : List Turn)
      → ltb t.checked deadline ≡ false
      → await_answer deadline (t ∷ turns) ≡ timed_out
  unfolding await_answer
  too_late deadline t turns b = rw (b, await_answer) refl

  no_turn :
      (deadline : Time) (rs : List (EnergyReading fl.F)) → await_answer deadline [] ≡ stored rs → ⊥
  unfolding await_answer
  no_turn deadline rs h = ground arith

  -- If `requestAndStore` stores readings, then they are the readings, at least one, of a frame that
  -- came in a read begun before the deadline, that carries the request's transaction number or is a
  -- notification, and that is a response to a Get or a notification; frames that do not parse or that
  -- belong to another request never count.
  pub await_answer-stored :
      (deadline : Time) (rs : List (EnergyReading fl.F)) (turns : List Turn)
      → await_answer deadline turns ≡ stored rs
      → IsAnswered deadline rs turns
  unfolding IsAnswered
  await_answer-stored deadline rs [] h = absurd (no_turn deadline rs h)
  await_answer-stored deadline rs (t ∷ turns) h = elim (Bool-cases (ltb t.checked deadline)) [
    | inr b ↦ absurd (not_stored (sym (too_late deadline t turns b) ∙ h))
    | inl b ↦
        elim (received-stored t.receipt (await_answer deadline turns) rs
          (sym (in_time deadline t turns b) ∙ h)) [
            | inl more ↦ later deadline t rs turns (await_answer-stored deadline rs turns more)
            | inr (now, d, f, e, p, answers) ↦ (
              [],
              turns,
              t.checked,
              now,
              d,
              f,
              ap (λ r. record { checked = t.checked; receipt = r } ∷ turns) e,
              ltb→lt t.checked deadline b,
              p,
              answers,
            )
          ]
  ]
    where
      not_stored : timed_out ≡ stored rs → ⊥
      not_stored e = ground arith
