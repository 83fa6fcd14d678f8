-- ===== src/Tracker/Codex/Renewal.antt =====
-- A Codex reset over two polls (internal/tracker/codex_tracker.go): the first one waits, the second
-- one renews the cycle.
use mathlib.Core.Path.{subst}
use on_watch.Base.{
  sym, Bool-cases, inl, inr, ℕ, ap, refl, ◌∙◌, Option, none, some, List, [], ◌∷◌, ◌++◌, ◌≤◌, ◌≡◌,
  true, String, ◌+◌, arith, lookup, if◌then◌else◌,
}
use on_watch.Float.{Float64}
use on_watch.Cycle.{first_open, new_row, create_cycle, close_cycle, update_cycle}
use on_watch.Cycle.Active.{active, update_cycle-active, create_cycle-active, close_cycle-active}
use on_watch.Cycle.Codex.{CodexKey, CodexCycle, CodexCycles, codex_key, codex_key_eq}
use on_watch.Tracker.Action.{ok}
use on_watch.Tracker.Synthetic.{grace_period}
use on_watch.Tracker.Anthropic.{cycle_end_time}
use on_watch.Tracker.Codex.{
  CodexQuota, CodexTracker, reset, pending, judge, dispatch, renew, process_quota, grown,
  last_value,
}
use on_watch.Tracker.Codex.Confirmation.{
  key_of, LooksReset, judge-second_poll, judge-fields, process_quota-open, dispatch-pending,
}

module _ {F : Type 0} ⦃fl : Float64 F⦄ where
  -- A new cycle with the values of the poll.
  abbrev pub IsRenewed : ℕ → CodexQuota F → CodexCycle F → Type 0
  IsRenewed at quota c =
      (c.cycle_start ≡ at)
      × (c.cycle_end ≡ none)
      × (c.resets_at ≡ quota.resets_at)
      × (c.peak ≡ quota.utilization)
      × (c.total_delta ≡ fl.zero)

  -- The calls of `onReset` so far, with one for this quota where a callback is set.
  abbrev pub called : String → CodexTracker F → List String
  called name t = if t.has_on_reset then t.resets ++ name ∷ [] else t.resets

  active-renewed :
      (key : CodexKey) (at end : ℕ) (resets_at : Option ℕ) (peak delta v : F) (s : CodexCycles F)
      → s.outcomes ≡ []
      → let closed = (close_cycle key end peak delta s).1 in
        active key (update_cycle key v fl.zero (create_cycle key at resets_at closed).1).1
        ≡ some (record (new_row fl.zero s.next_id key at resets_at) {
          peak = v;
          total_delta = fl.zero;
        })
  unfolding close_cycle create_cycle update_cycle
  active-renewed key at end resets_at peak delta v s up =
      let closed = (close_cycle key end peak delta s).1 in
      update_cycle-active key v fl.zero (create_cycle key at resets_at closed).1 _
        (create_cycle-active key at resets_at closed s.next_id
          (close_cycle-active key end peak delta s (rw up refl)) (rw up refl))
        (rw up refl)

  Renews : ℕ → CodexQuota F → ℕ → CodexCycle F → CodexTracker F → Type 0
  Renews account quota at cycle t =
      let r = renew account quota at cycle t in
      (r.0 ≡ ok tt)
      × ((c : CodexCycle F) × (first_open (codex_key account quota.name) r.1.store.rows ≡ some c)
          × IsRenewed at quota c)
      × (r.1.resets ≡ called quota.name t)

  renew_known :
      (account : ℕ) (quota : CodexQuota F) (at reported : ℕ) (cycle : CodexCycle F)
      (t : CodexTracker F)
      → t.store.outcomes ≡ []
      → Renews account (record quota { resets_at = some reported }) at cycle t
  unfolding Renews renew close_cycle create_cycle update_cycle
  renew_known account quota at reported cycle t up =
      let key = codex_key account quota.name in
      let final = grown quota.utilization cycle (last_value account quota.name t) in
      let row =
        active-renewed key at (cycle_end_time at cycle.resets_at) (some reported) final.0 final.1
          quota.utilization t.store up in
      let opened : CodexCycle F = new_row fl.zero t.store.next_id key at (some reported) in
      let new : CodexCycle F = record opened { peak = quota.utilization; total_delta = fl.zero } in
      elim (Bool-cases t.has_on_reset) [
        | inl set ↦ rw (up, set) (refl, (new, rw up at row, (refl, refl, refl, refl, refl)), refl)
        | inr unset ↦
            rw (up, unset) (refl, (new, rw up at row, (refl, refl, refl, refl, refl)), refl)
      ]

  renew-Renews :
      (account : ℕ) (quota : CodexQuota F) (at reported : ℕ) (cycle : CodexCycle F)
      (t : CodexTracker F)
      → t.store.outcomes ≡ []
      → quota.resets_at ≡ some reported
      → Renews account quota at cycle t
  renew-Renews account quota at reported cycle t up known =
      subst (λ r. Renews account (record quota { resets_at = r }) at cycle t) (sym known)
        (renew_known account quota at reported cycle t up)

  dispatch-reset :
      (account : ℕ) (quota : CodexQuota F) (at : ℕ) (c : CodexCycle F) (t : CodexTracker F)
      → (judge account quota at c.resets_at t).0 ≡ reset
      → dispatch account quota at (some c) t
        ≡ renew account quota at c (judge account quota at c.resets_at t).1
  dispatch-reset account quota at c t decided = rw decided refl

  judge-callback :
      (account : ℕ) (quota : CodexQuota F) (at : ℕ) (stored : Option ℕ) (t : CodexTracker F)
      → (judge account quota at stored t).1.has_on_reset ≡ t.has_on_reset
  unfolding judge
  judge-callback account quota at stored t = ground arith

  judge-called :
      (account : ℕ) (quota : CodexQuota F) (at : ℕ) (stored : Option ℕ) (t : CodexTracker F)
      → called quota.name (judge account quota at stored t).1 ≡ called quota.name t
  judge-called account quota at stored t =
      rw (judge-callback account quota at stored t, (judge-fields account quota at stored t).4) refl

  judge-first_poll :
      (account : ℕ) (quota : CodexQuota F) (at stored reported : ℕ) (t : CodexTracker F)
      → quota.resets_at ≡ some reported
      → at ≤ stored + grace_period
      → LooksReset account quota stored reported t
      → lookup (key_of account quota.name) t.pending_resets ≡ none
      → (judge account quota at (some stored) t).0 ≡ pending
  unfolding judge
  judge-first_poll account quota at stored reported t known early looks new = ground arith

  -- While the database works, a reset of a Codex quota is acted on by the second poll that shows it.
  -- The quota has an open cycle with a known reset time, and reports one. The first poll returns no
  -- error and writes nothing, calls no `onReset` and changes no last value. The next one, if it shows
  -- the same, returns no error, opens a new cycle from its time with its values, and calls `onReset`
  -- once. Both come before the stored time is two minutes past, the first one looks like a reset, by
  -- a shift of more than an hour and a drop of more than 2, with no candidate pending, and `2` is
  -- added to a value without making it smaller.
  pub process_quota-two_polls :
      (account : ℕ) (quota : CodexQuota F) (at later stored reported : ℕ) (c : CodexCycle F)
      (t : CodexTracker F)
      → fl.le quota.utilization (fl.add quota.utilization (fl.lit 2 0)) ≡ true
      → t.store.outcomes ≡ []
      → first_open (codex_key account quota.name) t.store.rows ≡ some c
      → c.resets_at ≡ some stored
      → quota.resets_at ≡ some reported
      → at ≤ stored + grace_period
      → later ≤ stored + grace_period
      → LooksReset account quota stored reported t
      → lookup (key_of account quota.name) t.pending_resets ≡ none
      → let first = process_quota account quota at t in
        let second = process_quota account quota later first.1 in
        (first.0 ≡ ok tt)
        × (first.1.store.rows ≡ t.store.rows)
        × (first.1.last_values ≡ t.last_values)
        × (first.1.resets ≡ t.resets)
        × (second.0 ≡ ok tt)
        × ((n : CodexCycle F) × (first_open (codex_key account quota.name) second.1.store.rows
              ≡ some n)
            × IsRenewed later quota n)
        × (second.1.resets ≡ called quota.name t)
  unfolding Renews
  process_quota-two_polls account quota at later stored reported c t wider up found since known
        early soon looks new =
      let first = judge account quota at c.resets_at t in
      let kept = judge-fields account quota at c.resets_at t in
      let waits : first.0 ≡ pending =
        rw since (judge-first_poll account quota at stored reported t known early looks new) in
      let second = judge account quota later c.resets_at first.1 in
      let same = judge-fields account quota later c.resets_at first.1 in
      let decided : second.0 ≡ reset =
        rw since
          (judge-second_poll account quota at later stored t wider soon (rw since at waits)) in
      let renewed =
        renew-Renews account quota later reported c second.1
          (ap (λ s. s.outcomes) (same.0 ∙ kept.0) ∙ up) known in
      rw
        (
          process_quota-open account quota at c t up found,
          dispatch-pending account quota at c t waits,
          process_quota-open account quota later c first.1 (ap (λ s. s.outcomes) kept.0 ∙ up)
              (ap (λ s. first_open (codex_key account quota.name) s.rows) kept.0 ∙ found),
          dispatch-reset account quota later c first.1 decided,
        )
        (
          refl,
          ap (λ s. s.rows) kept.0,
          kept.1,
          kept.4,
          renewed.0,
          renewed.1,
          renewed.2
              ∙ judge-called account quota later c.resets_at first.1
              ∙ judge-called account quota at c.resets_at t,
        )
