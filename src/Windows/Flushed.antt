-- ===== src/Windows/Flushed.antt =====
-- cmd/hm-cisco-iot-orchestrator-collector/aggregate.go: what `flushCompleted` and `flushAll` leave
-- behind, with any function in place of the flush of a window.
use home_metrics.Base.{
  ℕ, suc, ◌+◌, ◌≤◌, true, false, Bool-cases, ◌≡◌, refl, ap, ◌⊎◌, inl, inr, List, [], ◌∷◌, ◌++◌,
  if◌then◌else◌, length, All, arith,
}
use home_metrics.Base.Time.{Time, is_before}
use home_metrics.Windows.{
  Window, Outcome, wrote, nothing, failed, Swept, kept, settled, flush_completed, flush_all,
}

-- The windows of a list that are not completed, and the number of those that are.
unfoldable pub pending : {F : Type 0} → Time → List (Window F) → List (Window F)
pending current [] = []
pending current (w ∷ ws) =
    if is_before w.window current then pending current ws else w ∷ pending current ws

unfoldable pub completed : {F : Type 0} → Time → List (Window F) → ℕ
completed current [] = 0
completed current (w ∷ ws) =
    if is_before w.window current then suc (completed current ws) else completed current ws

module _ {D F E : Type 0} (flush : D → Window F → D × Outcome E) where
  -- The flush of a window of the list failed, in the state that the loop had reached with the windows
  -- before it.
  abbrev pub HasFailed : Time → List (Window F) → D → Window F → Type 0
  HasFailed current ws d w =
      (front back : List (Window F)) × (e : E) × (ws ≡ front ++ w ∷ back)
      × ((flush (flush_completed flush current front d).state w).1 ≡ failed e)

  -- Why a window is still there.
  abbrev pub IsLeft : Time → List (Window F) → D → Window F → Type 0
  IsLeft current ws d w =
      (is_before w.window current ≡ false)
      ⊎ ((is_before w.window current ≡ true) × HasFailed current ws d w)

  -- What `flush_completed` promises.
  abbrev pub IsSettled : Time → List (Window F) → D → Swept D F E → Type 0
  IsSettled current ws d s =
      All (IsLeft current ws d) s.windows
      × (pending current s.windows ≡ pending current ws)
      × (completed current s.windows ≡ length s.errors)
      × (s.flushed + length s.errors ≤ completed current ws)

  swept_true :
      (current : Time) (w : Window F) (ws : List (Window F)) (d : D)
      → is_before w.window current ≡ true
      → flush_completed flush current (w ∷ ws) d
        ≡ settled flush w (flush d w).1 (flush_completed flush current ws (flush d w).0)
  unfolding flush_completed
  swept_true current w ws d b = rw (b, flush_completed) refl

  swept_false :
      (current : Time) (w : Window F) (ws : List (Window F)) (d : D)
      → is_before w.window current ≡ false
      → flush_completed flush current (w ∷ ws) d ≡ kept flush w (flush_completed flush current ws d)
  unfolding flush_completed
  swept_false current w ws d b = rw (b, flush_completed) refl

  settled-state :
      (w : Window F) (o : Outcome E) (s : Swept D F E) → (settled flush w o s).state ≡ s.state
  settled-state w wrote s = refl
  settled-state w nothing s = refl
  settled-state w (failed e) s = refl

  -- The state that the loop reaches with a window, for the windows after it.
  next_state : Time → Window F → D → D
  next_state current w d = if is_before w.window current then (flush d w).0 else d

  state-next :
      (current : Time) (w : Window F) (front : List (Window F)) (d : D)
      → (flush_completed flush current (w ∷ front) d).state
        ≡ (flush_completed flush current front (next_state current w d)).state
  unfolding next_state
  state-next current w front d = elim (Bool-cases (is_before w.window current)) [
    | inl b ↦
        rw (swept_true current w front d b)
          (rw b (settled-state w (flush d w).1 (flush_completed flush current front (flush d w).0)))
    | inr b ↦ rw (swept_false current w front d b) (rw b refl)
  ]

  later :
      (current : Time) (w : Window F) (ws : List (Window F)) (d : D) (x : Window F)
      → IsLeft current ws (next_state current w d) x
      → IsLeft current (w ∷ ws) d x
  later current w ws d x (inl n) = inl n
  later current w ws d x (inr (b, (front, back, e, p, f))) =
      inr (b, (w ∷ front, back, e, ap (λ t. w ∷ t) p, rw (state-next current w front d) f))

  later-All :
      (current : Time) (w : Window F) (ws : List (Window F)) (d : D) (xs : List (Window F))
      → All (IsLeft current ws (next_state current w d)) xs
      → All (IsLeft current (w ∷ ws) d) xs
  later-All current w ws d [] h = tt
  later-All current w ws d (x ∷ xs) h =
      (later current w ws d x h.0, later-All current w ws d xs h.1)

  settled-IsSettled :
      (current : Time) (w : Window F) (ws : List (Window F)) (d : D) (o : Outcome E)
      (s : Swept D F E)
      → is_before w.window current ≡ true
      → (flush d w).1 ≡ o
      → IsSettled current ws (next_state current w d) s
      → IsSettled current (w ∷ ws) d (settled flush w o s)
  unfolding pending completed
  settled-IsSettled current w ws d wrote s b e h =
      rw b (later-All current w ws d s.windows h.0, h.1, h.2, omega (arith, h.3))
  settled-IsSettled current w ws d nothing s b e h =
      rw b (later-All current w ws d s.windows h.0, h.1, h.2, omega (arith, h.3))
  settled-IsSettled current w ws d (failed x) s b e h =
      let here : HasFailed current (w ∷ ws) d w = ([], ws, x, refl, unfold flush_completed in e) in
      rw b (
        (inr (refl, here), later-All current w ws d s.windows h.0),
        h.1,
        ap suc h.2,
        omega (arith, h.3),
      )

  kept-IsSettled :
      (current : Time) (w : Window F) (ws : List (Window F)) (d : D) (s : Swept D F E)
      → is_before w.window current ≡ false
      → IsSettled current ws (next_state current w d) s
      → IsSettled current (w ∷ ws) d (kept flush w s)
  unfolding pending completed
  kept-IsSettled current w ws d s b h =
      rw b ((inl refl, later-All current w ws d s.windows h.0), ap (λ t. w ∷ t) h.1, h.2, h.3)

  next-true :
      (current : Time) (w : Window F) (d : D)
      → is_before w.window current ≡ true
      → next_state current w d ≡ (flush d w).0
  unfolding next_state
  next-true current w d b = rw b refl

  next-false :
      (current : Time) (w : Window F) (d : D)
      → is_before w.window current ≡ false
      → next_state current w d ≡ d
  unfolding next_state
  next-false current w d b = rw b refl

  -- After `flushCompleted`, whatever the flush of a window does: a window that is left either belongs
  -- to the current minute or a later one, or it is a completed window whose flush in this run, in the
  -- state that the windows before it had left, failed; no window of the current minute or a later one is
  -- touched; there are as many errors as completed windows left; and rows written and errors are
  -- together no more than there were completed windows.
  pub flush_completed-IsSettled :
      (current : Time) (ws : List (Window F)) (d : D)
      → IsSettled current ws d (flush_completed flush current ws d)
  flush_completed-IsSettled current [] d =
      unfold flush_completed pending completed in (tt, refl, refl, omega arith)
  flush_completed-IsSettled current (w ∷ ws) d = elim (Bool-cases (is_before w.window current)) [
    | inl b ↦ rw (swept_true current w ws d b) (
        settled-IsSettled current w ws d (flush d w).1
          (flush_completed flush current ws (flush d w).0) b refl
          (rw (next-true current w d b) (flush_completed-IsSettled current ws (flush d w).0)))
    | inr b ↦ rw (swept_false current w ws d b) (
        kept-IsSettled current w ws d (flush_completed flush current ws d) b
          (rw (next-false current w d b) (flush_completed-IsSettled current ws d)))
  ]

  -- `flushAll` is `flushCompleted` at any time that is after every window.
  pub flush_all-flush_completed :
      (current : Time) (ws : List (Window F)) (d : D)
      → All (λ w. is_before w.window current ≡ true) ws
      → flush_all flush ws d ≡ flush_completed flush current ws d
  unfolding flush_all flush_completed
  flush_all-flush_completed current [] d h = refl
  flush_all-flush_completed current (w ∷ ws) d h =
      rw (h.0, flush_completed)
        (ap (settled flush w (flush d w).1)
          (flush_all-flush_completed current ws (flush d w).0 h.1))

  -- What each flush keeps of the state, given what holds of the window, the whole loop keeps.
  module _ (Q : D → Type 0) (W : Window F → Type 0)
      (keeps : (d : D) (w : Window F) → Q d → W w → Q (flush d w).0) where
    abbrev pub Keeps : Swept D F E → Type 0
    Keeps s = Q s.state × All W s.windows

    settled-Keeps :
        (w : Window F) (o : Outcome E) (s : Swept D F E)
        → W w
        → Keeps s
        → Keeps (settled flush w o s)
    settled-Keeps w wrote s x h = h
    settled-Keeps w nothing s x h = h
    settled-Keeps w (failed e) s x h = (h.0, (x, h.1))

    pub flush_completed-Keeps :
        (current : Time) (ws : List (Window F)) (d : D)
        → Q d
        → All W ws
        → Keeps (flush_completed flush current ws d)
    flush_completed-Keeps current [] d q h = unfold flush_completed in (q, tt)
    flush_completed-Keeps current (w ∷ ws) d q h = elim (Bool-cases (is_before w.window current)) [
      | inl b ↦ rw (swept_true current w ws d b) (
          settled-Keeps w (flush d w).1 (flush_completed flush current ws (flush d w).0) h.0
            (flush_completed-Keeps current ws (flush d w).0 (keeps d w q h.0) h.1))
      | inr b ↦
          let rest = flush_completed-Keeps current ws d q h.1 in
          rw (swept_false current w ws d b) (rest.0, (h.0, rest.1))
    ]
