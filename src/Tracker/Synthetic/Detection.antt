-- ===== src/Tracker/Synthetic/Detection.antt =====
-- When internal/tracker/tracker.go takes a snapshot for the first one after a reset.
use on_watch.Base.{ℕ, ◌+◌, ◌/◌, ◌%◌, ◌≤◌, ◌<◌, ◌≡◌, ◌≢◌, ◌⊎◌, ◌↔◌, true, leb, arith, ==_iff, ◌==◌}
use on_watch.Tracker.Synthetic.{grace_period, hour, truncate_hour, is_reset_detected}

same_hour : (a b : ℕ) → truncate_hour a ≡ truncate_hour b → a / hour ≡ b / hour
same_hour a b e = omega arith

same_hour_iff : (a b : ℕ) → ((truncate_hour a == truncate_hour b) ≡ true) ↔ (a / hour ≡ b / hour)
same_hour_iff a b = (λ h. same_hour a b ((==_iff _ _).0 h), λ h. (==_iff _ _).1 (omega arith))

-- A reset is detected exactly if the stored renewal is more than two minutes past, or the renewal
-- that is reported now lies in another hour than the stored one.
pub is_reset_detected_iff_synthetic :
    (captured_at stored reported : ℕ)
    → (is_reset_detected captured_at stored reported ≡ true)
      ↔ ((stored + grace_period < captured_at) ⊎ (stored / hour ≢ reported / hour))
unfolding is_reset_detected
is_reset_detected_iff_synthetic captured_at stored reported =
    ground (arith, same_hour_iff stored reported)

crossing :
    (stored drift : ℕ)
    → drift < hour
    → (stored / hour ≡ (stored + drift) / hour) ↔ (stored % hour + drift < hour)
crossing stored drift small = (λ h. omega arith, λ h. omega arith)

-- A renewal that drifts forward by less than an hour, seen before the stored one is two minutes
-- past, is taken for a reset exactly if it crosses the end of an hour: also a drift of minutes.
pub is_reset_detected-drift :
    (captured_at stored drift : ℕ)
    → captured_at ≤ stored + grace_period
    → drift < hour
    → is_reset_detected captured_at stored (stored + drift) ≡ leb hour (stored % hour + drift)
unfolding is_reset_detected
is_reset_detected-drift captured_at stored drift early small =
    ground (arith, same_hour_iff stored (stored + drift), crossing stored drift small)
