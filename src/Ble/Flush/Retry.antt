-- ===== src/Ble/Flush/Retry.antt =====
-- cmd/hm-ble-collector/main.go: a window whose row could not be written is flushed again, with the
-- histories that the first attempt left.
use home_metrics.Base.{
  ℕ, true, false, Bool-cases, ◌≡◌, refl, inl, inr, Option, none, some, ltb, length, arith,
}
use home_metrics.Base.Int.{pos, pos_part, leb_ℤ}
use home_metrics.Base.Float.{Float64}
use home_metrics.Base.Time.{Time, Duration, elapsed_self}
use home_metrics.Base.Text.{Text, eq_text_refl}
use home_metrics.Ble.Filter.{
  OutlierConfig, PendingOutlier, MetricHistory, Histories, median, near, confirm_or_reject, judge,
  threshold_of, filtered, filter_metric,
}

module _ (fl : Float64) where
  abbrev held : fl.F → Time → PendingOutlier fl.F
  held v ts = record { value = v; ts = ts }

  rejected_pending :
      (size : ℕ) (window : Duration) (t : fl.F) (h : MetricHistory fl.F) (ts : Time) (v : fl.F)
      (p : Option (PendingOutlier fl.F))
      → (confirm_or_reject fl size window t h ts v p).1 ≡ none
      → (confirm_or_reject fl size window t h ts v p).0 ≡ record h { pending = some (held v ts) }
  rejected_pending size window t h ts v none e = refl
  rejected_pending size window t h ts v (some p) e = ground arith

  -- A rejected value is held, and all else stays.
  judge-rejected :
      (size : ℕ) (window : Duration) (t : fl.F) (h : MetricHistory fl.F) (ts : Time) (v : fl.F)
      → (judge fl size window t h ts v).1 ≡ none
      → (ltb (length h.accepted) 3 ≡ false)
        × (near fl t v (median fl h.accepted) ≡ false)
        × ((judge fl size window t h ts v).0 ≡ record h { pending = some (held v ts) })
  unfolding judge
  judge-rejected size window t h ts v e =
      ground (arith, rejected_pending size window t h ts v h.pending)

  -- The value that is held confirms itself.
  judge-held :
      (size : ℕ) (window : Duration) (t : fl.F) (h : MetricHistory fl.F) (ts : Time) (v : fl.F)
      → h.pending ≡ some (held v ts)
      → near fl t v v ≡ true
      → leb_ℤ (pos 0) window ≡ true
      → (judge fl size window t h ts v).1 ≡ some v
  unfolding judge
  judge-held size window t h ts v p n w = ground (arith, elapsed_self ts)

  judge-retry :
      (size : ℕ) (window : Duration) (t : fl.F) (h : MetricHistory fl.F) (ts : Time) (v : fl.F)
      → (judge fl size window t h ts v).1 ≡ none
      → near fl t v v ≡ true
      → leb_ℤ (pos 0) window ≡ true
      → (judge fl size window t (judge fl size window t h ts v).0 ts v).1 ≡ some v
  judge-retry size window t h ts v e n w =
      rw (judge-rejected size window t h ts v e).2
        (judge-held size window t (record h { pending = some (held v ts) }) ts v refl n w)

  module _ (c : OutlierConfig fl.F) where
    filtered-retry :
        (o : Option fl.F) (hs : Histories fl.F) (mac name : Text) (ts : Time) (v : fl.F)
        → (filtered fl c o hs mac name ts v).1 ≡ none
        → ((t : fl.F) → o ≡ some t → near fl t v v ≡ true)
        → leb_ℤ (pos 0) c.confirm_window ≡ true
        → (filtered fl c o (filtered fl c o hs mac name ts v).0 mac name ts v).1 ≡ some v
    filtered-retry none hs mac name ts v e n w = refl
    filtered-retry (some t) hs mac name ts v e n w =
        rw (eq_text_refl mac, eq_text_refl name)
          (judge-retry (pos_part c.history_size) c.confirm_window t (hs mac name) ts v e (n t refl)
            w)

    -- A value that the filter rejects passes it when it is judged a second time at the same minute
    -- with the histories that the rejection left, provided that it is within the threshold of itself
    -- and the time for confirmation is not negative: the value is its own confirmation.
    pub filter_metric-retry :
        (hs : Histories fl.F) (mac name : Text) (ts : Time) (v : fl.F)
        → (filter_metric fl c hs mac name ts (some v)).1 ≡ none
        → ((t : fl.F) → threshold_of fl c name ≡ some t → near fl t v v ≡ true)
        → leb_ℤ (pos 0) c.confirm_window ≡ true
        → (filter_metric fl c (filter_metric fl c hs mac name ts (some v)).0 mac name ts (some v)).1
          ≡ some v
    unfolding filter_metric
    filter_metric-retry hs mac name ts v e n w = elim (Bool-cases c.enabled) [
      | inl b ↦ rw b (filtered-retry (threshold_of fl c name) hs mac name ts v (rw b at e) n w)
      | inr b ↦ rw b refl
    ]
