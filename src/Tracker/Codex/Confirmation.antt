-- ===== src/Tracker/Codex/Confirmation.antt =====
-- The second poll that confirms a Codex reset (internal/tracker/codex_tracker.go).
use on_watch.Base.{
  ℕ, ap, refl, Option, [], ◌+◌, ◌≤◌, ◌<◌, ◌≡◌, ◌↔◌, true, false, none, some, String, arith, lookup,
  lookup-insert_self, Option-cases, inl, inr,
}
use on_watch.Float.{Float64}
use on_watch.Cycle.{first_open, query_active_cycle}
use on_watch.Tracker.Action.{ok}
use on_watch.Cycle.Codex.{
  CodexKey, CodexCycle, CodexCycles, codex_key, codex_key_eq, query_active_codex_cycle,
}
use on_watch.Tracker.Synthetic.{grace_period}
use on_watch.Tracker.Anthropic.{time_diff}
use on_watch.Tracker.Codex.{
  CodexQuota, CodexTracker, PendingCodexReset, reset, pending, new_pending, reference_reset,
  codex_reset_shift_threshold, codex_reset_times_close, codex_pending_reset_tolerance, has_dropped,
  confirms, judge, dispatch, process_quota,
}

abbrev pub key_of : ℕ → String → CodexKey
key_of account name = record { account = account; name = name }

-- Two known times confirm one another exactly if they lie at most five minutes apart; an unknown
-- time confirms an unknown one only.
pub codex_reset_times_close_iff :
    (left right : ℕ)
    → ((codex_reset_times_close (some left) (some right) ≡ true) ↔ (
        (left ≤ right + codex_pending_reset_tolerance)
        × (right ≤ left + codex_pending_reset_tolerance)))
      × (codex_reset_times_close (some left) none ≡ false)
      × (codex_reset_times_close none (some right) ≡ false)
      × (codex_reset_times_close none none ≡ true)
unfolding codex_reset_times_close
codex_reset_times_close_iff left right = ground arith

module _ {F : Type 0} ⦃fl : Float64 F⦄ where
  -- The reported time has moved by more than an hour and the value has dropped by more than 2.
  abbrev pub LooksReset : ℕ → CodexQuota F → ℕ → ℕ → CodexTracker F → Type 0
  LooksReset account quota stored reported t =
      (codex_reset_shift_threshold
        < time_diff reported (reference_reset account quota.name stored t))
      × (has_dropped account quota t ≡ true)

  -- Before the stored time is two minutes past, a reset is taken exactly if this poll looks like
  -- one, and the candidate that is pending from an earlier poll confirms it.
  pub judge-reset_iff :
      (account : ℕ) (quota : CodexQuota F) (at stored reported : ℕ) (t : CodexTracker F)
      → quota.resets_at ≡ some reported
      → at ≤ stored + grace_period
      → ((judge account quota at (some stored) t).0 ≡ reset) ↔ (
          LooksReset account quota stored reported t
          × ((c : PendingCodexReset F) × (lookup (key_of account quota.name) t.pending_resets
                ≡ some c)
              × (confirms c quota ≡ true)))
  unfolding judge
  judge-reset_iff account quota at stored reported t known early =
      elim (Option-cases (lookup (key_of account quota.name) t.pending_resets)) [
        | inl first ↦ (λ h. absurd (ground arith), λ h. ground arith)
        | inr (c, waiting) ↦ (λ h. (ground arith, (c, waiting, ground arith)), λ h. ground arith)
      ]

  -- A pending poll is confirmed by the next one, if that shows the same and still comes before the
  -- stored time is two minutes past: two polls are enough. `2` is added to a value without making
  -- it smaller.
  pub judge-second_poll :
      (account : ℕ) (quota : CodexQuota F) (at later stored : ℕ) (t : CodexTracker F)
      → fl.le quota.utilization (fl.add quota.utilization (fl.lit 2 0)) ≡ true
      → later ≤ stored + grace_period
      → (judge account quota at (some stored) t).0 ≡ pending
      → (judge account quota later (some stored) (judge account quota at (some stored) t).1).0
        ≡ reset
  unfolding judge
  judge-second_poll account quota at later stored t wider early first =
      elim (Option-cases quota.resets_at) [
        | inl unknown ↦ absurd (ground arith)
        | inr (reported, known) ↦
            elim (Option-cases (lookup (key_of account quota.name) t.pending_resets)) [
              | inl new ↦ ground (
                arith,
                lookup-insert_self (key_of account quota.name) (new_pending quota at)
                    t.pending_resets,
              )
              | inr (c, waiting) ↦ ground (
                arith,
                lookup-insert_self (key_of account quota.name) (new_pending quota at)
                    t.pending_resets,
              )
            ]
      ]

  pub judge-fields :
      (account : ℕ) (quota : CodexQuota F) (at : ℕ) (stored : Option ℕ) (t : CodexTracker F)
      → let u = (judge account quota at stored t).1 in
        (u.store ≡ t.store)
        × (u.last_values ≡ t.last_values)
        × (u.last_resets ≡ t.last_resets)
        × (u.has_last ≡ t.has_last)
        × (u.resets ≡ t.resets)
  unfolding judge
  judge-fields account quota at stored t = ground arith

  pub dispatch-pending :
      (account : ℕ) (quota : CodexQuota F) (at : ℕ) (c : CodexCycle F) (t : CodexTracker F)
      → (judge account quota at c.resets_at t).0 ≡ pending
      → dispatch account quota at (some c) t ≡ (ok tt, (judge account quota at c.resets_at t).1)
  dispatch-pending account quota at c t waits = rw waits refl

  query-up :
      (account : ℕ) (name : String) (c : CodexCycle F) (s : CodexCycles F)
      → s.outcomes ≡ []
      → first_open (codex_key account name) s.rows ≡ some c
      → query_active_codex_cycle account name s ≡ (some (some c), s)
  unfolding query_active_cycle
  query-up account name c s up found = ground (arith, up, found)

  pub process_quota-open :
      (account : ℕ) (quota : CodexQuota F) (at : ℕ) (c : CodexCycle F) (t : CodexTracker F)
      → t.store.outcomes ≡ []
      → first_open (codex_key account quota.name) t.store.rows ≡ some c
      → process_quota account quota at t ≡ dispatch account quota at (some c) t
  unfolding process_quota
  process_quota-open account quota at c t up found =
      rw (query-up account quota.name c t.store up found) refl

  -- A poll that is pending writes nothing: while the database works, `processQuota` returns no
  -- error and leaves the table, the last values and times and the calls of `onReset` as they were.
  pub process_quota-pending :
      (account : ℕ) (quota : CodexQuota F) (at : ℕ) (c : CodexCycle F) (t : CodexTracker F)
      → t.store.outcomes ≡ []
      → first_open (codex_key account quota.name) t.store.rows ≡ some c
      → (judge account quota at c.resets_at t).0 ≡ pending
      → let r = process_quota account quota at t in
        (r.0 ≡ ok tt)
        × (r.1.store.rows ≡ t.store.rows)
        × (r.1.last_values ≡ t.last_values)
        × (r.1.last_resets ≡ t.last_resets)
        × (r.1.resets ≡ t.resets)
  process_quota-pending account quota at c t up found waits =
      let kept = judge-fields account quota at c.resets_at t in
      rw (process_quota-open account quota at c t up found) (
        rw (dispatch-pending account quota at c t waits)
          (refl, ap (λ s. s.rows) kept.0, kept.1, kept.2, kept.4))
