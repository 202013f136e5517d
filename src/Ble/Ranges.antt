-- ===== src/Ble/Ranges.antt =====
-- cmd/hm-ble-collector/main.go: values within a range, through the filter of outliers.
pub mod Samples
pub mod Stored
use home_metrics.Base.{
  ℕ, Bool, true, false, not, if◌then◌else◌, Bool-cases, inl, inr, ◌≡◌, List, [], ◌∷◌, ◌++◌, Option,
  none, some, All, ltb, length,
}
use home_metrics.Base.Int.{ℤ, pos, negsuc, leb_ℤ, pos_part}
use home_metrics.Base.Float.{Float64}
use home_metrics.Base.Time.{Time, Duration}
use home_metrics.Base.Text.{Text}
use home_metrics.Store.{coalesce}
use home_metrics.Median.{mean, All?}
use home_metrics.Decoder.Values.{sanitize_range}
use home_metrics.Decoder.Ranges.{Within, sanitize_range-Within}
use home_metrics.Windows.{append_ptr}
use home_metrics.Ble.Filter.{
  OutlierConfig, PendingOutlier, MetricHistory, Histories, median, near, confirms,
  confirm_or_reject, judge, threshold_of, filtered, filter_metric,
}

module _ (fl : Float64) where
  -- A finite value that is not below `lo` and not above `hi`.
  abbrev pub In : ℤ → ℤ → fl.F → Type 0
  In lo hi v = Within fl (some v) lo hi

  -- The mean of two values of a range is in the range, if its bounds are small integers: what IEEE
  -- 754 promises of an addition and a division by two.
  abbrev pub MeansStay : Type 0
  MeansStay =
      (lo hi : ℤ) (a b : fl.F)
      → leb_ℤ (negsuc 126) lo ≡ true
      → leb_ℤ hi (pos 65534) ≡ true
      → In lo hi a
      → In lo hi b
      → In lo hi (mean fl a b)

  sure : (o : Option fl.F) (lo hi : ℤ) → Within fl o lo hi → All? fl (In lo hi) o
  sure none lo hi h = tt
  sure (some v) lo hi h = h

  pub sanitize_range-In :
      (v : Option fl.F) (lo hi : ℤ) → All? fl (In lo hi) (sanitize_range fl v lo hi)
  sanitize_range-In v lo hi =
      sure (sanitize_range fl v lo hi) lo hi (sanitize_range-Within fl v lo hi)

  module _ (P : fl.F → Type 0) where
    pub append_ptr-All :
        (vs : List fl.F) (o : Option fl.F) → All P vs → All? fl P o → All P (append_ptr vs o)
    append_ptr-All vs none h p = h
    append_ptr-All [] (some v) h p = (p, tt)
    append_ptr-All (x ∷ vs) (some v) h p = (h.0, append_ptr-All vs (some v) h.1 p)

    pub coalesce-All? : (a b : Option fl.F) → All? fl P a → All? fl P b → All? fl P (coalesce a b)
    coalesce-All? none b p q = q
    coalesce-All? (some v) b p q = p

    confirm_or_reject-All? :
        (size : ℕ) (window : Duration) (t : fl.F) (h : MetricHistory fl.F) (ts : Time) (v : fl.F)
        (p : Option (PendingOutlier fl.F))
        → P v
        → All? fl P (confirm_or_reject fl size window t h ts v p).1
    confirm_or_reject-All? size window t h ts v none p = tt
    confirm_or_reject-All? size window t h ts v (some q) p =
        elim (Bool-cases (confirms fl window t ts v q)) [ inl e ↦ rw e p | inr e ↦ rw e tt ]

    judge-All? :
        (size : ℕ) (window : Duration) (t : fl.F) (h : MetricHistory fl.F) (ts : Time) (v : fl.F)
        → P v
        → All? fl P (judge fl size window t h ts v).1
    unfolding judge
    judge-All? size window t h ts v p = elim (Bool-cases (ltb (length h.accepted) 3)) [
      | inl a ↦ rw a p
      | inr a ↦ rw a (elim (Bool-cases (near fl t v (median fl h.accepted))) [
        | inl b ↦ rw b p
        | inr b ↦ rw b (confirm_or_reject-All? size window t h ts v h.pending p)
      ])
    ]

    filtered-All? :
        (c : OutlierConfig fl.F) (o : Option fl.F) (hs : Histories fl.F) (mac name : Text)
        (ts : Time) (v : fl.F)
        → P v
        → All? fl P (filtered fl c o hs mac name ts v).1
    filtered-All? c none hs mac name ts v p = p
    filtered-All? c (some t) hs mac name ts v p =
        judge-All? (pos_part c.history_size) c.confirm_window t (hs mac name) ts v p

    -- A filter hands on what it is given, or nothing.
    pub filter_metric-All? :
        (c : OutlierConfig fl.F) (hs : Histories fl.F) (mac name : Text) (ts : Time)
        (v : Option fl.F)
        → All? fl P v
        → All? fl P (filter_metric fl c hs mac name ts v).1
    unfolding filter_metric
    filter_metric-All? c hs mac name ts none p = tt
    filter_metric-All? c hs mac name ts (some v) p = elim (Bool-cases c.enabled) [
      | inl e ↦ rw e (filtered-All? c (threshold_of fl c name) hs mac name ts v p)
      | inr e ↦ rw e p
    ]
