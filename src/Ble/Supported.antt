-- ===== src/Ble/Supported.antt =====
-- cmd/hm-ble-collector/main.go: what the filter of outliers lets pass, and what it remembers, over the
-- values of one metric of one sensor. Lists of values have the newest first.
use home_metrics.Base.{
  ℕ, zero, suc, ◌-◌, ◌≤◌, ◌<◌, true, Bool-cases, ◌≡◌, refl, subst, ◌⊎◌, inl, inr, List, [], ◌∷◌,
  ◌++◌, Option, none, some, ltb, ltb→lt, length, drop, All, length-drop, arith,
}
use home_metrics.Base.Int.{leb_ℤ}
use home_metrics.Base.Float.{Float64}
use home_metrics.Base.Time.{Time, Duration, elapsed}
use home_metrics.Ble.Filter.{
  PendingOutlier, MetricHistory, no_history, newest, accept_metric, median, near, confirms,
  confirm_or_reject, judge,
}

length-newest {ℓ} : {A : Type ℓ} (size : ℕ) (vs : List A) → length (newest size vs) ≤ size
length-newest size vs = elim (Bool-cases (ltb size (length vs))) [
  | inl e ↦ rw e (omega (arith, length-drop (length vs - size) vs, ltb→lt size (length vs) e))
  | inr e ↦ rw e (ground arith)
]

All-drop {ℓ κ} : {A : Type ℓ} (P : A → Type κ) (n : ℕ) (vs : List A) → All P vs → All P (drop n vs)
All-drop P zero vs h = h
All-drop P (suc n) [] h = h
All-drop P (suc n) (v ∷ vs) h = All-drop P n vs h.1

All-snoc {ℓ κ} :
    {A : Type ℓ} (P : A → Type κ) (vs : List A) (v : A) → All P vs → P v → All P (vs ++ v ∷ [])
All-snoc P [] v h p = (p, h)
All-snoc P (x ∷ vs) v h p = (h.0, All-snoc P vs v h.1 p)

All-newest {ℓ κ} :
    {A : Type ℓ} (P : A → Type κ) (size : ℕ) (vs : List A) → All P vs → All P (newest size vs)
All-newest P size vs h = elim (Bool-cases (ltb size (length vs))) [
  | inl e ↦ rw e (All-drop P (length vs - size) vs h)
  | inr e ↦ rw e h
]

module _ (fl : Float64) (size : ℕ) (window : Duration) (threshold : fl.F) where
  -- The history after values, from none.
  unfoldable pub history_after : List (Time × fl.F) → MetricHistory fl.F
  unfolding judge
  history_after [] = no_history fl.F
  history_after ((ts, v) ∷ values) = (judge fl size window threshold (history_after values) ts v).0

  -- The value before was rejected, and is near and recent.
  abbrev Confirmed : List (Time × fl.F) → Time → fl.F → Type 0
  Confirmed [] ts v = ⊥
  Confirmed ((t, p) ∷ values) ts v =
      ((judge fl size window threshold (history_after values) t p).1 ≡ none)
      × (leb_ℤ (elapsed ts t) window ≡ true)
      × (near fl threshold v p ≡ true)

  -- Why a value passes.
  unfoldable pub Supported : List (Time × fl.F) → Time → fl.F → Type 0
  Supported values ts v =
      (length (history_after values).accepted < 3)
      ⊎ (near fl threshold v (median fl (history_after values).accepted) ≡ true)
      ⊎ Confirmed values ts v

  -- A pending outlier is the value just judged, which was rejected.
  judge-pending :
      (h : MetricHistory fl.F) (ts : Time) (v : fl.F) (q : PendingOutlier fl.F)
      → (judge fl size window threshold h ts v).0.pending ≡ some q
      → ((judge fl size window threshold h ts v).1 ≡ none) × (q.value ≡ v) × (q.ts ≡ ts)
  unfolding judge accept_metric
  judge-pending h ts v q e = ground arith

  -- What a value that passes shows of the history.
  abbrev Passed : MetricHistory fl.F → Time → fl.F → fl.F → Type 0
  Passed h ts v v' =
      (v' ≡ v)
      × ((length h.accepted < 3)
          ⊎ (near fl threshold v (median fl h.accepted) ≡ true)
          ⊎ ((q : PendingOutlier fl.F) × (h.pending ≡ some q)
              × (confirms fl window threshold ts v q ≡ true)))

  confirmed-Passed :
      (h : MetricHistory fl.F) (ts : Time) (v v' : fl.F) (p : Option (PendingOutlier fl.F))
      → h.pending ≡ p
      → (confirm_or_reject fl size window threshold h ts v p).1 ≡ some v'
      → Passed h ts v v'
  confirmed-Passed h ts v v' none k e = cc
  confirmed-Passed h ts v v' (some q) k e =
      elim (Bool-cases (confirms fl window threshold ts v q)) [
        | inl c ↦ (ground arith, inr (inr (q, k, c)))
        | inr c ↦ ground arith
      ]

  judge-Passed :
      (h : MetricHistory fl.F) (ts : Time) (v v' : fl.F)
      → (judge fl size window threshold h ts v).1 ≡ some v'
      → Passed h ts v v'
  unfolding judge
  judge-Passed h ts v v' e = elim (Bool-cases (ltb (length h.accepted) 3)) [
    | inl a ↦ (ground arith, inl (ltb→lt (length h.accepted) 3 a))
    | inr a ↦ elim (Bool-cases (near fl threshold v (median fl h.accepted))) [
      | inl b ↦ (ground arith, inr (inl b))
      | inr b ↦ confirmed-Passed h ts v v' h.pending refl (rw (a, b) at e)
    ]
  ]

  confirmed :
      (values : List (Time × fl.F)) (ts : Time) (v : fl.F) (q : PendingOutlier fl.F)
      → (history_after values).pending ≡ some q
      → confirms fl window threshold ts v q ≡ true
      → Confirmed values ts v
  confirmed [] ts v q p c = unfold history_after in cc
  confirmed ((t, w) ∷ values) ts v q p c =
      let held = judge-pending (history_after values) t w q (unfold history_after in p) in
      ground arith

  -- A value that passes the filter, after any values, is handed on unchanged, and there is a reason:
  -- fewer than three accepted values are remembered (always so where the history is set to hold one or
  -- two), or it is within the threshold of the median of the remembered values, or the value just before it was rejected, is within the threshold of it and no
  -- older than the time for confirmation.
  pub judge-Supported :
      (values : List (Time × fl.F)) (ts : Time) (v v' : fl.F)
      → (judge fl size window threshold (history_after values) ts v).1 ≡ some v'
      → (v' ≡ v) × Supported values ts v
  unfolding Supported
  judge-Supported values ts v v' e =
      let passed = judge-Passed (history_after values) ts v v' e in
      (
        passed.0,
        elim passed.1 [
          | inl short ↦ inl short
          | inr (inl close) ↦ inr (inl close)
          | inr (inr (q, k, c)) ↦ inr (inr (confirmed values ts v q k c))
        ],
      )

  -- What is remembered: no more than `size` accepted values; of them, and of the pending one, holds
  -- what holds of every value that was judged.
  abbrev pub IsSound : (fl.F → Type 0) → MetricHistory fl.F → Type 0
  IsSound P h =
      (length h.accepted ≤ size)
      × All P h.accepted
      × ((q : PendingOutlier fl.F) → h.pending ≡ some q → P q.value)

  module _ (P : fl.F → Type 0) where
    accept_metric-IsSound :
        (h : MetricHistory fl.F) (v : fl.F)
        → All P h.accepted
        → P v
        → IsSound P (accept_metric size h v)
    unfolding accept_metric
    accept_metric-IsSound h v a p = (
      length-newest size (h.accepted ++ v ∷ []),
      All-newest P size (h.accepted ++ v ∷ []) (All-snoc P h.accepted v a p),
      λ q e. cc,
    )

    pending-value :
        (h : MetricHistory fl.F) (ts : Time) (v : fl.F) (q : PendingOutlier fl.F)
        → P v
        → (record h { pending = some record { value = v; ts = ts } }).pending ≡ some q
        → P q.value
    pending-value h ts v q p e = let same : v ≡ q.value = ground arith in subst P same p

    confirm_or_reject-IsSound :
        (h : MetricHistory fl.F) (ts : Time) (v : fl.F) (p : Option (PendingOutlier fl.F))
        → h.pending ≡ p
        → IsSound P h
        → P v
        → IsSound P (confirm_or_reject fl size window threshold h ts v p).0
    confirm_or_reject-IsSound h ts v none k s p = (s.0, s.1, λ q e. pending-value h ts v q p e)
    confirm_or_reject-IsSound h ts v (some q) k s p =
        elim (Bool-cases (confirms fl window threshold ts v q)) [
          | inl c ↦ rw c (
              accept_metric-IsSound (accept_metric size h q.value) v
                (accept_metric-IsSound h q.value s.1 (s.2 q k)).1 p)
          | inr c ↦ rw c (s.0, s.1, λ q e. pending-value h ts v q p e)
        ]

    judge-IsSound :
        (h : MetricHistory fl.F) (ts : Time) (v : fl.F)
        → IsSound P h
        → P v
        → IsSound P (judge fl size window threshold h ts v).0
    unfolding judge
    judge-IsSound h ts v s p = elim (Bool-cases (ltb (length h.accepted) 3)) [
      | inl a ↦ rw a (accept_metric-IsSound h v s.1 p)
      | inr a ↦ rw a (elim (Bool-cases (near fl threshold v (median fl h.accepted))) [
        | inl b ↦ rw b (accept_metric-IsSound h v s.1 p)
        | inr b ↦ rw b (confirm_or_reject-IsSound h ts v h.pending refl s p)
      ])
    ]

    -- After any values the filter remembers no more accepted values than the configured size, and
    -- what holds of every value that was judged holds of each remembered value and of the pending one.
    pub history_after-IsSound :
        (values : List (Time × fl.F)) → All (λ x. P x.1) values → IsSound P (history_after values)
    unfolding history_after
    history_after-IsSound [] h = (omega arith, tt, λ q e. cc)
    history_after-IsSound ((ts, v) ∷ values) h =
        judge-IsSound (history_after values) ts v (history_after-IsSound values h.1) h.0
