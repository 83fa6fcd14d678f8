-- ===== src/Tracker/Anthropic/Detection.antt =====
-- When internal/tracker/anthropic_tracker.go detects a reset.
use on_watch.Base.{ℕ, ◌+◌, ◌≤◌, ◌<◌, ◌≡◌, ◌⊎◌, ◌↔◌, refl, true, false, Option, none, some, arith}
use on_watch.Tracker.Synthetic.{grace_period}
use on_watch.Tracker.Anthropic.{jitter_tolerance, is_reset_detected, cycle_end_time}

-- With both times known, a reset is detected exactly if the stored time is more than two minutes
-- past, or the reported time lies more than ten minutes before or after the stored one.
pub is_reset_detected_iff_anthropic :
    (captured_at stored reported : ℕ)
    → (is_reset_detected captured_at (some stored) (some reported) ≡ true) ↔ (
        (stored + grace_period < captured_at)
        ⊎ (stored + jitter_tolerance < reported)
        ⊎ (reported + jitter_tolerance < stored))
unfolding is_reset_detected
is_reset_detected_iff_anthropic captured_at stored reported = ground arith

-- A reported time within ten minutes of the stored one never starts a cycle, while the stored time
-- is not two minutes past; nor does a missing report.
pub jitter_ignored :
    (captured_at stored : ℕ) (reported : Option ℕ)
    → captured_at ≤ stored + grace_period
    → ((r : ℕ)
        → reported ≡ some r
        → (r ≤ stored + jitter_tolerance) × (stored ≤ r + jitter_tolerance))
    → is_reset_detected captured_at (some stored) reported ≡ false
unfolding is_reset_detected
jitter_ignored captured_at stored none early near = ground arith
jitter_ignored captured_at stored (some r) early near = let n = near r refl in ground arith

-- A cycle never ends after the snapshot that ends it, nor after its own reset time.
pub cycle_end_time-le :
    (captured_at stored : ℕ)
    → (cycle_end_time captured_at (some stored) ≤ captured_at)
      × (cycle_end_time captured_at (some stored) ≤ stored)
cycle_end_time-le captured_at stored = ground arith
