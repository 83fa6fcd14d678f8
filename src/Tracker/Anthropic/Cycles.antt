-- ===== src/Tracker/Anthropic/Cycles.antt =====
-- What `Process` of internal/tracker/anthropic_tracker.go does to the rows of
-- `anthropic_reset_cycles`, whichever of its calls of the database fail.
use on_watch.Base.{
  ℕ, ◌≡◌, refl, Option, none, some, List, [], ◌∷◌, String, string_eq, if_holds, arith,
}
use on_watch.Float.{Float64}
use on_watch.Cycle.Laws.{open_count}
use on_watch.Cycle.Invariant.{HasOneOpen, IsSound, IsSound-refl}
use on_watch.Cycle.Anthropic.{AnthropicCycle, AnthropicCycles, update_anthropic_cycle}
use on_watch.Tracker.Action.{Result, ok, ◌>>◌, modify, and_then-holds, create_failed, update_failed}
use on_watch.Tracker.Rules
use on_watch.Tracker.Anthropic.{
  AnthropicQuota, AnthropicSnapshot, AnthropicTracker, call, remember, call_on_reset, last_value,
  grown, cycle_end_time, is_reset_detected, first_snapshot, renew, save_grown, same_cycle, dispatch,
  process_quota, process_quotas, process,
}

module _ {F : Type 0} ⦃fl : Float64 F⦄ where
  abbrev table : AnthropicTracker F → AnthropicCycles F
  table t = t.store

  abbrev with_table : AnthropicTracker F → AnthropicCycles F → AnthropicTracker F
  with_table t s = record t { store = s }

  IsDone : String → AnthropicCycles F → Result (Unit {0}) × AnthropicTracker F → Type 0
  IsDone = Rules.IsDone table with_table (λ t s. refl)

  call_on_reset-store :
      (name : String) (t : AnthropicTracker F) → (call_on_reset name t).store ≡ t.store
  call_on_reset-store name t = ground arith

  first_snapshot-IsDone :
      (quota : AnthropicQuota F) (at : ℕ) (before : AnthropicCycles F) (t : AnthropicTracker F)
      → IsSound before t.store
      → open_count quota.name t.store ≡ 0
      → IsDone quota.name before (first_snapshot quota at t)
  unfolding first_snapshot IsDone
  first_snapshot-IsDone quota at before t =
      Rules.create-IsDone table with_table (λ t s. refl) create_failed quota.name at quota.resets_at
        quota.utilization before (remember quota) t (λ u. refl)

  renew-IsDone :
      (quota : AnthropicQuota F) (at : ℕ) (cycle : AnthropicCycle F) (before : AnthropicCycles F)
      (t : AnthropicTracker F)
      → IsSound before t.store
      → IsDone quota.name before (renew quota at cycle t)
  unfolding renew IsDone
  renew-IsDone quota at cycle before t =
      let final = grown quota.utilization cycle (last_value quota.name t) in
      Rules.renew-IsDone table with_table (λ t s. refl) quota.name at
        (cycle_end_time at cycle.resets_at) quota.resets_at final.0 final.1 quota.utilization before
        (λ u. call_on_reset quota.name (remember quota u)) t
        (λ u. call_on_reset-store quota.name (remember quota u))

  save_grown-IsDone :
      (quota : AnthropicQuota F) (cycle : AnthropicCycle F) (last : Option F)
      (before : AnthropicCycles F) (t : AnthropicTracker F)
      → IsSound before t.store
      → open_count quota.name t.store ≡ 1
      → IsDone quota.name before ((save_grown quota cycle last >> modify (remember quota)) t)
  unfolding IsDone
  save_grown-IsDone quota cycle (some last_util) before t sound one =
      Rules.update-IsDone table with_table (λ t s. refl) update_failed quota.name _ _ before
        (modify (remember quota)) t
        (λ u.
          Rules.memory-IsDone table with_table (λ t s. refl) quota.name before (remember quota) u
            (λ u. refl))
        sound one
  save_grown-IsDone quota cycle none before t sound one =
      if_holds (λ m. IsDone quota.name before ((m >> modify (remember quota)) t))
        (fl.lt cycle.peak quota.utilization)
        (call update_failed (update_anthropic_cycle quota.name quota.utilization cycle.total_delta))
        (modify (λ u. u))
        (λ _.
          Rules.update-IsDone table with_table (λ t s. refl) update_failed quota.name _ _ before
            (modify (remember quota)) t
            (λ u.
              Rules.memory-IsDone table with_table (λ t s. refl) quota.name before (remember quota)
                u (λ u. refl))
            sound one)
        (λ _.
          Rules.memory-IsDone table with_table (λ t s. refl) quota.name before (remember quota) t
            (λ u. refl) sound one)

  same_cycle-IsDone :
      (quota : AnthropicQuota F) (cycle : AnthropicCycle F) (before : AnthropicCycles F)
      (t : AnthropicTracker F)
      → IsSound before t.store
      → open_count quota.name t.store ≡ 1
      → IsDone quota.name before (same_cycle quota cycle t)
  unfolding same_cycle
  same_cycle-IsDone quota cycle before t =
      save_grown-IsDone quota cycle (last_value quota.name t) before t

  process_quota-IsDone :
      (quota : AnthropicQuota F) (at : ℕ) (before : AnthropicCycles F) (t : AnthropicTracker F)
      → IsSound before t.store
      → IsDone quota.name before (process_quota quota at t)
  unfolding process_quota IsDone
  process_quota-IsDone quota at before t =
      Rules.query-IsDone table with_table (λ t s. refl) quota.name before (dispatch quota at) t
        (first_snapshot-IsDone quota at before)
        (λ cycle u sound one.
          if_holds (λ m. IsDone quota.name before (m u))
            (is_reset_detected at cycle.resets_at quota.resets_at) (renew quota at cycle)
            (same_cycle quota cycle) (λ _. renew-IsDone quota at cycle before u sound)
            (λ _. same_cycle-IsDone quota cycle before u sound one))

  -- Whatever a quota shows and whichever calls of the database fail, after `processQuota` no quota
  -- has two open cycles if none had before, and every cycle that was closed before stands
  -- unchanged; and where it returns no error, its quota has exactly one open cycle.
  pub process_quota-IsSound_anthropic :
      (quota : AnthropicQuota F) (at : ℕ) (t : AnthropicTracker F)
      → HasOneOpen t.store
      → let r = process_quota quota at t in
        IsSound t.store r.1.store × (r.0 ≡ ok tt → open_count quota.name r.1.store ≡ 1)
  unfolding IsDone
  process_quota-IsSound_anthropic quota at t one =
      let d = process_quota-IsDone quota at t.store t (IsSound-refl t.store one) in
      (d.sound, d.open_one)

  process_quotas-IsSound :
      (at : ℕ) (quotas : List (AnthropicQuota F)) (before : AnthropicCycles F)
      (t : AnthropicTracker F)
      → IsSound before t.store
      → IsSound before (process_quotas at quotas t).1.store
  unfolding process_quotas IsDone
  process_quotas-IsSound at [] before t sound = sound
  process_quotas-IsSound at (quota ∷ rest) before t sound =
      let d = process_quota-IsDone quota at before t sound in
      and_then-holds (λ r. IsSound before r.1.store) (λ _. process_quotas at rest)
        (process_quota quota at t) (λ _ _. process_quotas-IsSound at rest before _ d.sound)
        (λ _ _. d.sound)

  -- A whole snapshot, of any number of quotas, gives no quota two open cycles, if none had two
  -- before, and changes no cycle that was closed before it, also where a failure ends the loop.
  pub process-IsSound_anthropic :
      (snapshot : AnthropicSnapshot F) (t : AnthropicTracker F)
      → HasOneOpen t.store
      → IsSound t.store (process snapshot t).1.store
  unfolding process
  process-IsSound_anthropic snapshot t one =
      let sound =
        process_quotas-IsSound snapshot.captured_at snapshot.quotas t.store t
          (IsSound-refl t.store one) in
      and_then-holds (λ r. IsSound t.store r.1.store) _
        (process_quotas snapshot.captured_at snapshot.quotas t) (λ _ _. sound) (λ _ _. sound)
