-- ===== src/Tracker/Codex.antt =====
-- `CodexTracker` of internal/tracker/codex_tracker.go: reset cycles by account and quota, with a
-- second poll to confirm a reset. Its maps from accounts to maps of quotas are one map here, by
-- both keys. Times are nanoseconds.
pub mod Confirmation
pub mod Renewal
pub mod Cycles
use on_watch.Base.{
  ℕ, ◌+◌, ◌-◌, ◌*◌, ◌^◌, Bool, true, false, not, ◌&&◌, ◌||◌, Option, none, some, List, [], ◌∷◌,
  ◌++◌, String, string_eq, nat_eq, ltb, leb, ◌==◌, if◌then◌else◌, Dict, lookup, insert, erase,
}
use on_watch.Float.{Float64}
use on_watch.Cycle.Codex.{
  CodexKey, codex_key, codex_key_eq, default_codex_account_id, CodexCycle, CodexCycles,
  query_active_codex_cycle, create_codex_cycle, close_codex_cycle, update_codex_cycle,
  update_codex_cycle_resets_at,
}
use on_watch.Tracker.Action.{
  Action, Result, ok, err, CycleError, query_failed, create_failed, initial_peak_failed,
  close_failed, new_cycle_failed, update_failed, resets_at_failed, ◌>>=◌, ◌>>◌, modify, gets,
  or_fail,
}
use on_watch.Tracker.Synthetic.{grace_period, add_positive, raise_peak}
use on_watch.Tracker.Anthropic.{time_diff, has_passed, cycle_end_time}

pub record CodexQuota (F : Type 0) : Type 0 where
  pub name : String
  pub utilization : F
  pub resets_at : Option ℕ

pub record CodexSnapshot (F : Type 0) : Type 0 where
  pub captured_at : ℕ
  pub account_id : ℕ
  pub quotas : List (CodexQuota F)

pub record PendingCodexReset (F : Type 0) : Type 0 where
  pub utilization : F
  pub resets_at : Option ℕ
  pub captured_at : ℕ

pub record CodexTracker (F : Type 0) : Type 0 where
  pub store : CodexCycles F
  pub last_values : Dict CodexKey F
  pub last_resets : Dict CodexKey ℕ
  pub pending_resets : Dict CodexKey (PendingCodexReset F)
  pub has_last : Dict ℕ Bool
  pub has_on_reset : Bool
  pub resets : List String

-- 60 minutes and 5 minutes.
abbrev pub codex_reset_shift_threshold : ℕ
codex_reset_shift_threshold = 3600 * 10 ^ 9

abbrev pub codex_pending_reset_tolerance : ℕ
codex_pending_reset_tolerance = 300 * 10 ^ 9

unfoldable pub codex_reset_times_close : Option ℕ → Option ℕ → Bool
codex_reset_times_close none none = true
codex_reset_times_close none (some _) = false
codex_reset_times_close (some _) none = false
codex_reset_times_close (some left) (some right) =
    leb (time_diff left right) codex_pending_reset_tolerance

-- What the reported reset time says of the open cycle.
pub data Verdict : Type 0 where
  -- `resetDetected`; the return with a pending candidate; the same cycle, without and with
  -- `updateCycleResetAt`.
  reset pending same moved : Verdict

module _ {F : Type 0} where
  abbrev pub call :
      {A : Type 0}
      → CycleError
      → (CodexCycles F → Option A × CodexCycles F)
      → Action (CodexTracker F) A
  call e f t = let (r, s) = f t.store in (or_fail e r, record t { store = s })

  abbrev pub seen : ℕ → CodexTracker F → Bool
  seen account_id t = elim (lookup account_id t.has_last) [ none ↦ false | some b ↦ b ]

  -- `lastValues[accountID][quotaName]`, where `hasLast[accountID]`.
  abbrev pub last_value : ℕ → String → CodexTracker F → Option F
  last_value account_id name t =
      if seen account_id t
      then lookup (record { account = account_id; name = name }) t.last_values
      else none

  abbrev pub set_last_value : ℕ → CodexQuota F → CodexTracker F → CodexTracker F
  set_last_value account_id quota t = record t {
    last_values =
        insert (record { account = account_id; name = quota.name }) quota.utilization t.last_values;
  }

  abbrev pub set_last_reset : ℕ → CodexQuota F → CodexTracker F → CodexTracker F
  set_last_reset account_id quota t = elim quota.resets_at [
    | none ↦ t
    | some at ↦ record t {
      last_resets = insert (record { account = account_id; name = quota.name }) at t.last_resets;
    }
  ]

  abbrev pub remember : ℕ → CodexQuota F → CodexTracker F → CodexTracker F
  remember account_id quota t = set_last_reset account_id quota (set_last_value account_id quota t)

  abbrev pub forget_pending : ℕ → String → CodexTracker F → CodexTracker F
  forget_pending account_id name t = record t {
    pending_resets = erase (record { account = account_id; name = name }) t.pending_resets;
  }

  abbrev pub call_on_reset : String → CodexTracker F → CodexTracker F
  call_on_reset name t = if t.has_on_reset then record t { resets = t.resets ++ name ∷ [] } else t

  -- `refReset`: the last reported time, or else that of the cycle.
  abbrev pub reference_reset : ℕ → String → ℕ → CodexTracker F → ℕ
  reference_reset account_id name stored t =
      elim (lookup (record { account = account_id; name = name }) t.last_resets) [
        | none ↦ stored
        | some last_reset ↦ last_reset
      ]

module _ {F : Type 0} ⦃fl : Float64 F⦄ where
  abbrev pub new_pending : CodexQuota F → ℕ → PendingCodexReset F
  new_pending quota captured_at = record {
    utilization = quota.utilization;
    resets_at = quota.resets_at;
    captured_at = captured_at;
  }

  abbrev pub confirms : PendingCodexReset F → CodexQuota F → Bool
  unfolding codex_reset_times_close
  confirms candidate quota =
      codex_reset_times_close candidate.resets_at quota.resets_at
      && fl.le quota.utilization (fl.add candidate.utilization (fl.lit 2 0))

  -- True, or false with a new candidate.
  unfoldable pub confirm_codex_reset : ℕ → CodexQuota F → ℕ → CodexTracker F → Bool × CodexTracker F
  unfolding codex_reset_times_close
  confirm_codex_reset account_id quota captured_at t =
      let key : CodexKey = record { account = account_id; name = quota.name } in
      let replaced = record t {
        pending_resets = insert key (new_pending quota captured_at) t.pending_resets;
      } in
      elim (lookup key t.pending_resets) [
        | none ↦ (false, replaced)
        | some candidate ↦ if confirms candidate quota then (true, t) else (false, replaced)
      ]

  -- The value has dropped by more than 2 since the last poll.
  abbrev pub has_dropped : ℕ → CodexQuota F → CodexTracker F → Bool
  has_dropped account_id quota t = elim (last_value account_id quota.name t) [
    | none ↦ false
    | some last_util ↦ fl.lt (fl.add quota.utilization (fl.lit 2 0)) last_util
  ]

  -- The comparison of a reported time with a known stored one.
  abbrev pub judge_shift : ℕ → CodexQuota F → ℕ → ℕ → ℕ → CodexTracker F → Verdict × CodexTracker F
  judge_shift account_id quota captured_at stored reported t =
      let diff = time_diff reported (reference_reset account_id quota.name stored t) in
      let (confirmed, t') = confirm_codex_reset account_id quota captured_at t in
      if ltb codex_reset_shift_threshold diff && has_dropped account_id quota t
      then (if confirmed then reset else pending, t')
      else (moved, t)

  abbrev pub judge_times :
      ℕ → CodexQuota F → ℕ → Option ℕ → Option ℕ → CodexTracker F → Verdict × CodexTracker F
  judge_times account_id quota captured_at stored none t = (same, t)
  judge_times account_id quota captured_at none (some reported) t = (moved, t)
  judge_times account_id quota captured_at (some stored) (some reported) t =
      judge_shift account_id quota captured_at stored reported t

  unfoldable pub judge : ℕ → CodexQuota F → ℕ → Option ℕ → CodexTracker F → Verdict × CodexTracker F
  unfolding confirm_codex_reset
  judge account_id quota captured_at stored t =
      if has_passed captured_at stored
      then (reset, t)
      else judge_times account_id quota captured_at stored quota.resets_at t

  abbrev pub grown : F → CodexCycle F → Option F → F × F
  grown util cycle none = (cycle.peak, cycle.total_delta)
  grown util cycle (some last_util) =
      (raise_peak cycle.peak util, add_positive cycle.total_delta util last_util)

  pub first_snapshot : ℕ → CodexQuota F → ℕ → Action (CodexTracker F) (Unit {0})
  first_snapshot account_id quota captured_at = do
    call create_failed (create_codex_cycle account_id quota.name captured_at quota.resets_at)
    call initial_peak_failed (update_codex_cycle account_id quota.name quota.utilization fl.zero)
    modify (remember account_id quota)

  pub renew : ℕ → CodexQuota F → ℕ → CodexCycle F → Action (CodexTracker F) (Unit {0})
  renew account_id quota captured_at cycle = do
    modify (forget_pending account_id quota.name)
    final ← gets (λ t. grown quota.utilization cycle (last_value account_id quota.name t))
    call close_failed (
        close_codex_cycle account_id quota.name (cycle_end_time captured_at cycle.resets_at) final.0
          final.1)
    call new_cycle_failed (create_codex_cycle account_id quota.name captured_at quota.resets_at)
    call initial_peak_failed (update_codex_cycle account_id quota.name quota.utilization fl.zero)
    modify (remember account_id quota)
    modify (call_on_reset quota.name)

  -- The write of peak and total: by the last value, if there is one; without any value of the
  -- account only a higher peak; and where the account has values, but not of this quota, nothing.
  abbrev pub save_grown :
      ℕ → CodexQuota F → CodexCycle F → Bool → Option F → Action (CodexTracker F) (Unit {0})
  save_grown account_id quota cycle true (some last_util) = call update_failed (
      update_codex_cycle account_id quota.name (raise_peak cycle.peak quota.utilization)
        (add_positive cycle.total_delta quota.utilization last_util))
  save_grown account_id quota cycle true none = modify (λ t. t)
  save_grown account_id quota cycle false _ =
      if fl.lt cycle.peak quota.utilization
      then call update_failed
          (update_codex_cycle account_id quota.name quota.utilization cycle.total_delta)
      else modify (λ t. t)

  pub keep_values : ℕ → CodexQuota F → CodexCycle F → Action (CodexTracker F) (Unit {0})
  keep_values account_id quota cycle = do
    known ← gets (seen account_id)
    last ← gets (last_value account_id quota.name)
    save_grown account_id quota cycle known last
    modify (set_last_value account_id quota)

  -- The branch of the same cycle; `moves` is `updateCycleResetAt`.
  pub same_cycle : Bool → ℕ → CodexQuota F → CodexCycle F → Action (CodexTracker F) (Unit {0})
  unfolding keep_values
  same_cycle false account_id quota cycle = do
    modify (forget_pending account_id quota.name)
    keep_values account_id quota cycle
  same_cycle true account_id quota cycle = do
    modify (forget_pending account_id quota.name)
    call resets_at_failed (update_codex_cycle_resets_at account_id quota.name quota.resets_at)
    modify (set_last_reset account_id quota)
    keep_values account_id quota cycle

  abbrev pub carry_out :
      Verdict → ℕ → CodexQuota F → ℕ → CodexCycle F → Action (CodexTracker F) (Unit {0})
  carry_out reset account_id quota captured_at cycle = renew account_id quota captured_at cycle
  carry_out pending account_id quota captured_at cycle = modify (λ t. t)
  carry_out same account_id quota captured_at cycle = same_cycle false account_id quota cycle
  carry_out moved account_id quota captured_at cycle = same_cycle true account_id quota cycle

  abbrev pub dispatch :
      ℕ → CodexQuota F → ℕ → Option (CodexCycle F) → Action (CodexTracker F) (Unit {0})
  dispatch account_id quota captured_at none t = first_snapshot account_id quota captured_at t
  dispatch account_id quota captured_at (some cycle) t =
      let (verdict, t') = judge account_id quota captured_at cycle.resets_at t in
      carry_out verdict account_id quota captured_at cycle t'

  unfoldable pub process_quota : ℕ → CodexQuota F → ℕ → Action (CodexTracker F) (Unit {0})
  unfolding first_snapshot renew same_cycle judge
  process_quota account_id quota captured_at = do
    cycle ← call query_failed (query_active_codex_cycle account_id quota.name)
    dispatch account_id quota captured_at cycle

  pub process_quotas : ℕ → ℕ → List (CodexQuota F) → Action (CodexTracker F) (Unit {0})
  unfolding process_quota
  process_quotas account_id captured_at [] = modify (λ t. t)
  process_quotas account_id captured_at (quota ∷ rest) =
      process_quota account_id quota captured_at >> process_quotas account_id captured_at rest

  unfoldable pub process : CodexSnapshot F → Action (CodexTracker F) (Unit {0})
  unfolding process_quotas
  process snapshot =
      let account_id =
        if snapshot.account_id == 0 then default_codex_account_id else snapshot.account_id in
      do
        process_quotas account_id snapshot.captured_at snapshot.quotas
        modify (λ t. record t { has_last = insert account_id true t.has_last })
