-- ===== src/Ble/Filter.antt =====
-- cmd/hm-ble-collector/main.go: `filterMetric` and `acceptMetric`, the filter of outliers. The
-- history of a metric that is not in the map is the empty one.
use home_metrics.Base.{
  ℕ, ◌-◌, Bool, List, [], ◌∷◌, ◌++◌, Option, none, some, ltb, ◌&&◌, ◌||◌, not, if◌then◌else◌,
  length, drop,
}
use home_metrics.Base.Int.{ℤ, pos, pos_part, leb_ℤ}
use home_metrics.Base.Float.{Float64}
use home_metrics.Base.Time.{Time, Duration, elapsed}
use home_metrics.Base.Text.{Text, eq_text}
use home_metrics.Median.{sort, middle}

pub record OutlierConfig (F : Type 0) : Type 0 where
  pub enabled : Bool
  pub history_size : ℤ
  pub confirm_window : Duration
  pub thresholds : Text → Option F

pub record PendingOutlier (F : Type 0) : Type 0 where
  pub value : F
  pub ts : Time

pub record MetricHistory (F : Type 0) : Type 0 where
  pub accepted : List F
  pub pending : Option (PendingOutlier F)

abbrev pub no_history : (F : Type 0) → MetricHistory F
no_history F = record { accepted = []; pending = none }

-- By MAC address and name of the metric.
abbrev pub Histories : Type 0 → Type 0
Histories F = Text → Text → MetricHistory F

-- The last `size` elements, if there are more.
abbrev pub newest {ℓ} : {A : Type ℓ} → ℕ → List A → List A
newest size vs = if ltb size (length vs) then drop (length vs - size) vs else vs

unfoldable pub accept_metric : {F : Type 0} → ℕ → MetricHistory F → F → MetricHistory F
accept_metric size h v = record h { accepted = newest size (h.accepted ++ v ∷ []); pending = none }

module _ (fl : Float64) where
  -- `median`; of no values, which would panic, it is never taken.
  unfoldable pub median : List fl.F → fl.F
  unfolding sort middle
  median [] = fl.of_int (pos 0)
  median (x ∷ xs) = middle fl x (sort fl (x ∷ xs))

  -- `math.Abs(a-b) <= threshold`.
  abbrev pub near : fl.F → fl.F → fl.F → Bool
  near threshold a b = fl.le (fl.abs (fl.sub a b)) threshold

  -- The pending outlier is recent and near.
  abbrev pub confirms : Duration → fl.F → Time → fl.F → PendingOutlier fl.F → Bool
  confirms window threshold ts v p = leb_ℤ (elapsed ts p.ts) window && near threshold v p.value

  -- The last part of the filter, with the pending outlier looked at.
  abbrev pub confirm_or_reject :
      ℕ
      → Duration
      → fl.F
      → MetricHistory fl.F
      → Time
      → fl.F
      → Option (PendingOutlier fl.F)
      → MetricHistory fl.F × Option fl.F
  confirm_or_reject size window threshold h ts v none =
      (record h { pending = some record { value = v; ts = ts } }, none)
  confirm_or_reject size window threshold h ts v (some p) =
      if confirms window threshold ts v p
      then (accept_metric size (accept_metric size h p.value) v, some v)
      else (record h { pending = some record { value = v; ts = ts } }, none)

  -- The filter past its first tests, on the history of the metric.
  unfoldable pub judge :
      ℕ → Duration → fl.F → MetricHistory fl.F → Time → fl.F → MetricHistory fl.F × Option fl.F
  unfolding accept_metric median elapsed
  judge size window threshold h ts v =
      if ltb (length h.accepted) 3
      then (accept_metric size h v, some v)
      else if near threshold v (median h.accepted)
      then (accept_metric size h v, some v)
      else confirm_or_reject size window threshold h ts v h.pending

  -- `!ok || threshold <= 0 || c.outliers.HistorySize <= 0`, else the threshold.
  abbrev pub threshold_of : OutlierConfig fl.F → Text → Option fl.F
  threshold_of c name = elim (c.thresholds name) [
    | none ↦ none
    | some t ↦ if fl.le t (fl.of_int (pos 0)) || leb_ℤ c.history_size (pos 0) then none else some t
  ]

  abbrev pub set_history : Histories fl.F → Text → Text → MetricHistory fl.F → Histories fl.F
  set_history hs mac name h = λ m n. if eq_text mac m && eq_text name n then h else hs m n

  -- The filter with its threshold found, if any.
  abbrev pub filtered :
      OutlierConfig fl.F
      → Option fl.F
      → Histories fl.F
      → Text
      → Text
      → Time
      → fl.F
      → Histories fl.F × Option fl.F
  filtered c none hs mac name ts v = (hs, some v)
  filtered c (some t) hs mac name ts v =
      let (h, result) = judge (pos_part c.history_size) c.confirm_window t (hs mac name) ts v in
      (set_history hs mac name h, result)

  unfoldable pub filter_metric :
      OutlierConfig fl.F
      → Histories fl.F
      → Text
      → Text
      → Time
      → Option fl.F
      → Histories fl.F × Option fl.F
  unfolding judge
  filter_metric c hs mac name ts none = (hs, none)
  filter_metric c hs mac name ts (some v) =
      if not c.enabled then (hs, some v) else filtered c (threshold_of c name) hs mac name ts v
