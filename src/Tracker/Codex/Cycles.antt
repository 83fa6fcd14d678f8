-- ===== src/Tracker/Codex/Cycles.antt =====
-- What `Process` of internal/tracker/codex_tracker.go does to the rows of `codex_reset_cycles`,
-- whichever of its calls of the database fail.
use on_watch.Base.{
  ℕ, ◌≡◌, refl, ◌∙◌, Bool, true, false, Option, none, some, List, [], ◌∷◌, String, if◌then◌else◌,
  if_holds, arith, ◌==◌,
}
use on_watch.Float.{Float64}
use on_watch.Cycle.Laws.{open_count}
use on_watch.Cycle.Invariant.{HasOneOpen, IsSound, IsSound-refl}
use on_watch.Cycle.Codex.{
  CodexKey, CodexCycle, CodexCycles, codex_key, codex_key_eq, update_codex_cycle,
  default_codex_account_id,
}
use on_watch.Tracker.Action.{
  Result, ok, ◌>>◌, modify, and_then-holds, create_failed, update_failed, resets_at_failed,
}
use on_watch.Tracker.Rules
use on_watch.Tracker.Anthropic.{cycle_end_time}
use on_watch.Tracker.Codex.{
  CodexQuota, CodexSnapshot, CodexTracker, Verdict, reset, pending, same, moved, call, seen,
  last_value, set_last_value, set_last_reset, remember, forget_pending, call_on_reset, judge, grown,
  first_snapshot, renew, save_grown, keep_values, same_cycle, carry_out, dispatch, process_quota,
  process_quotas, process,
}

module _ {F : Type 0} ⦃fl : Float64 F⦄ where
  abbrev table : CodexTracker F → CodexCycles F
  table t = t.store

  abbrev with_table : CodexTracker F → CodexCycles F → CodexTracker F
  with_table t s = record t { store = s }

  IsDone : CodexKey → CodexCycles F → Result (Unit {0}) × CodexTracker F → Type 0
  IsDone = Rules.IsDone table with_table (λ t s. refl)

  call_on_reset-store :
      (name : String) (t : CodexTracker F) → (call_on_reset name t).store ≡ t.store
  call_on_reset-store name t = ground arith

  set_last_reset-store :
      (account : ℕ) (quota : CodexQuota F) (t : CodexTracker F)
      → (set_last_reset account quota t).store ≡ t.store
  set_last_reset-store account quota t = ground arith

  judge-store :
      (account : ℕ) (quota : CodexQuota F) (at : ℕ) (stored : Option ℕ) (t : CodexTracker F)
      → (judge account quota at stored t).1.store ≡ t.store
  unfolding judge
  judge-store account quota at stored t = ground arith

  first_snapshot-IsDone :
      (account : ℕ) (quota : CodexQuota F) (at : ℕ) (before : CodexCycles F) (t : CodexTracker F)
      → IsSound before t.store
      → open_count (codex_key account quota.name) t.store ≡ 0
      → IsDone (codex_key account quota.name) before (first_snapshot account quota at t)
  unfolding first_snapshot IsDone
  first_snapshot-IsDone account quota at before t =
      Rules.create-IsDone table with_table (λ t s. refl) create_failed
        (codex_key account quota.name) at quota.resets_at quota.utilization before
        (remember account quota) t
        (λ u. set_last_reset-store account quota (set_last_value account quota u))

  renew-IsDone :
      (account : ℕ) (quota : CodexQuota F) (at : ℕ) (cycle : CodexCycle F) (before : CodexCycles F)
      (t : CodexTracker F)
      → IsSound before t.store
      → IsDone (codex_key account quota.name) before (renew account quota at cycle t)
  unfolding renew IsDone
  renew-IsDone account quota at cycle before t =
      let final = grown quota.utilization cycle (last_value account quota.name t) in
      Rules.renew-IsDone table with_table (λ t s. refl) (codex_key account quota.name) at
        (cycle_end_time at cycle.resets_at) quota.resets_at final.0 final.1 quota.utilization before
        (λ u. call_on_reset quota.name (remember account quota u))
        (forget_pending account quota.name t)
        (λ u.
          call_on_reset-store quota.name (remember account quota u)
          ∙ set_last_reset-store account quota (set_last_value account quota u))

  save_grown-IsDone :
      (account : ℕ) (quota : CodexQuota F) (cycle : CodexCycle F) (known : Bool) (last : Option F)
      (before : CodexCycles F) (t : CodexTracker F)
      → IsSound before t.store
      → open_count (codex_key account quota.name) t.store ≡ 1
      → IsDone
          (codex_key account quota.name)
          before
          ((save_grown account quota cycle known last >> modify (set_last_value account quota)) t)
  unfolding IsDone
  save_grown-IsDone account quota cycle known last before t sound one = by_case known last
    where
      key : CodexKey
      key = codex_key account quota.name

      done :
          (u : CodexTracker F)
          → IsSound before u.store
          → open_count key u.store ≡ 1
          → IsDone key before (modify (set_last_value account quota) u)
      done u =
          Rules.memory-IsDone table with_table (λ t s. refl) key before
            (set_last_value account quota) u (λ u. refl)

      saved :
          (peak delta : F)
          → IsDone key before (
              (call update_failed (update_codex_cycle account quota.name peak delta)
                  >> modify (set_last_value account quota))
                t)
      saved peak delta =
          Rules.update-IsDone table with_table (λ t s. refl) update_failed key peak delta before
            (modify (set_last_value account quota)) t done sound one

      by_case :
          (known : Bool) (last : Option F)
          → IsDone key before (
              (save_grown account quota cycle known last >> modify (set_last_value account quota))
                t)
      by_case true (some last_util) = saved _ _
      by_case true none = done t sound one
      by_case false last =
          if_holds (λ m. IsDone key before ((m >> modify (set_last_value account quota)) t))
            (fl.lt cycle.peak quota.utilization)
            (call update_failed
              (update_codex_cycle account quota.name quota.utilization cycle.total_delta))
            (modify (λ u. u)) (λ _. saved _ _) (λ _. done t sound one)

  same_cycle-IsDone :
      (moves : Bool) (account : ℕ) (quota : CodexQuota F) (cycle : CodexCycle F)
      (before : CodexCycles F) (t : CodexTracker F)
      → IsSound before t.store
      → open_count (codex_key account quota.name) t.store ≡ 1
      → IsDone (codex_key account quota.name) before (same_cycle moves account quota cycle t)
  unfolding same_cycle keep_values IsDone
  same_cycle-IsDone false account quota cycle before t =
      let u = forget_pending account quota.name t in
      save_grown-IsDone account quota cycle (seen account u) (last_value account quota.name u)
        before u
  same_cycle-IsDone true account quota cycle before t =
      Rules.update_resets_at-IsDone table with_table (λ t s. refl) resets_at_failed
        (codex_key account quota.name) quota.resets_at before _
        (forget_pending account quota.name t)
        (λ u sound one.
          let v = set_last_reset account quota u in
          save_grown-IsDone account quota cycle (seen account v) (last_value account quota.name v)
            before v (rw (set_last_reset-store account quota u) sound)
            (rw (set_last_reset-store account quota u) one))

  carry_out-IsDone :
      (verdict : Verdict) (account : ℕ) (quota : CodexQuota F) (at : ℕ) (cycle : CodexCycle F)
      (before : CodexCycles F) (t : CodexTracker F)
      → IsSound before t.store
      → open_count (codex_key account quota.name) t.store ≡ 1
      → IsDone (codex_key account quota.name) before (carry_out verdict account quota at cycle t)
  unfolding IsDone
  carry_out-IsDone reset account quota at cycle before t sound one =
      renew-IsDone account quota at cycle before t sound
  carry_out-IsDone pending account quota at cycle before t sound one =
      Rules.memory-IsDone table with_table (λ t s. refl) (codex_key account quota.name) before
        (λ u. u) t (λ u. refl) sound one
  carry_out-IsDone same account quota at cycle before t sound one =
      same_cycle-IsDone false account quota cycle before t sound one
  carry_out-IsDone moved account quota at cycle before t sound one =
      same_cycle-IsDone true account quota cycle before t sound one

  process_quota-IsDone :
      (account : ℕ) (quota : CodexQuota F) (at : ℕ) (before : CodexCycles F) (t : CodexTracker F)
      → IsSound before t.store
      → IsDone (codex_key account quota.name) before (process_quota account quota at t)
  unfolding process_quota IsDone
  process_quota-IsDone account quota at before t =
      Rules.query-IsDone table with_table (λ t s. refl) (codex_key account quota.name) before
        (dispatch account quota at) t (first_snapshot-IsDone account quota at before)
        (λ cycle u sound one.
          let v = judge account quota at cycle.resets_at u in
          carry_out-IsDone v.0 account quota at cycle before v.1
            (rw (judge-store account quota at cycle.resets_at u) sound)
            (rw (judge-store account quota at cycle.resets_at u) one))

  -- Whatever a quota shows, confirmed or pending, and whichever calls of the database fail, after
  -- `processQuota` no quota of any account has two open cycles if none had before, and every cycle
  -- that was closed before stands unchanged; and where it returns no error, its quota has exactly
  -- one open cycle.
  pub process_quota-IsSound_codex :
      (account : ℕ) (quota : CodexQuota F) (at : ℕ) (t : CodexTracker F)
      → HasOneOpen t.store
      → let r = process_quota account quota at t in
        IsSound t.store r.1.store
        × (r.0 ≡ ok tt → open_count (codex_key account quota.name) r.1.store ≡ 1)
  unfolding IsDone
  process_quota-IsSound_codex account quota at t one =
      let d = process_quota-IsDone account quota at t.store t (IsSound-refl t.store one) in
      (d.sound, d.open_one)

  process_quotas-IsSound :
      (account at : ℕ) (quotas : List (CodexQuota F)) (before : CodexCycles F) (t : CodexTracker F)
      → IsSound before t.store
      → IsSound before (process_quotas account at quotas t).1.store
  unfolding process_quotas IsDone
  process_quotas-IsSound account at [] before t sound = sound
  process_quotas-IsSound account at (quota ∷ rest) before t sound =
      let d = process_quota-IsDone account quota at before t sound in
      and_then-holds (λ r. IsSound before r.1.store) (λ _. process_quotas account at rest)
        (process_quota account quota at t)
        (λ _ _. process_quotas-IsSound account at rest before _ d.sound) (λ _ _. d.sound)

  -- A whole snapshot of an account gives no quota of any account two open cycles, if none had two
  -- before, and changes no cycle that was closed before it, also where a failure ends the loop.
  pub process-IsSound_codex :
      (snapshot : CodexSnapshot F) (t : CodexTracker F)
      → HasOneOpen t.store
      → IsSound t.store (process snapshot t).1.store
  unfolding process
  process-IsSound_codex snapshot t one =
      let account =
        if snapshot.account_id == 0 then default_codex_account_id else snapshot.account_id in
      let sound =
        process_quotas-IsSound account snapshot.captured_at snapshot.quotas t.store t
          (IsSound-refl t.store one) in
      and_then-holds (λ r. IsSound t.store r.1.store) _
        (process_quotas account snapshot.captured_at snapshot.quotas t) (λ _ _. sound)
        (λ _ _. sound)
