-- ===== src/Connect.antt =====
-- cmd/hm-cisco-iot-orchestrator-collector: main.go's reconnection and flushes, and what protobuf.go's
-- `decodeDataBatch` and config.go have to do with the registry of devices.
pub mod Backoff
pub mod Batch
pub mod Registry
use home_metrics.Base.{
  ℕ, zero, suc, Bool, true, false, List, [], ◌∷◌, ◌==◌, ◌&&◌, ◌||◌, not, if◌then◌else◌,
}
use home_metrics.Base.Int.{pos, leb_ℤ, ltb_ℤ}
use home_metrics.Base.Time.{Time, Duration, is_zero, elapsed, minute, truncate_minute}
use home_metrics.Windows.{Window, Outcome, Swept, pending_summary, flush_completed}

-- What is marked in the table of collectors after a flush.
pub data Report (E : Type 0) : Type 0 where
  success : Report E
  data_success : Report E
  failure : List E → Report E

-- Both branches of `flushPending` end with this; the log is outside, the time of its line is kept.
unfoldable pub maybe_log_pending : {F : Type 0} → List (Window F) → Time → Duration → Time → Time
unfolding elapsed pending_summary
maybe_log_pending ws now log_every last_log =
    let (count, oldest) = pending_summary now ws in
    if leb_ℤ log_every (pos 0) || (not (is_zero last_log) && ltb_ℤ (elapsed now last_log) log_every)
    then last_log
    else if (count == 0) || ltb_ℤ oldest (pos minute)
    then last_log
    else now

module _ {D F E : Type 0} (flush : D → Window F → D × Outcome E) where
  abbrev report_of : List E → ℕ → Report E
  report_of (e ∷ es) flushed = failure (e ∷ es)
  report_of [] zero = success
  report_of [] (suc n) = data_success

  -- What the flush leaves, what is marked, and the time of the last line about pending windows.
  unfoldable pub flush_pending :
      Time → Duration → Time → List (Window F) → D → Swept D F E × Report E × Time
  unfolding truncate_minute flush_completed maybe_log_pending
  flush_pending now log_every last_log ws d =
      let swept = flush_completed flush (truncate_minute now) ws d in
      (
        swept,
        report_of swept.errors swept.flushed,
        maybe_log_pending swept.windows now log_every last_log,
      )
