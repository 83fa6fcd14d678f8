-- ===== src/Tracker/Anthropic.antt =====
-- `AnthropicTracker` of internal/tracker/anthropic_tracker.go: the reset cycles of any number of
-- quotas. Times are nanoseconds; `lastResets` holds a formatted time, kept here as the instant.
pub mod Detection
pub mod Cycles
use on_watch.Base.{
  ℕ, ◌+◌, ◌-◌, ◌*◌, ◌^◌, Bool, true, false, ◌&&◌, ◌||◌, Option, none, some, List, [], ◌∷◌, ◌++◌,
  String, string_eq, ltb, if◌then◌else◌, Dict, lookup, insert,
}
use on_watch.Float.{Float64}
use on_watch.Cycle.Anthropic.{
  AnthropicCycle, AnthropicCycles, query_active_anthropic_cycle, create_anthropic_cycle,
  close_anthropic_cycle, update_anthropic_cycle,
}
use on_watch.Tracker.Action.{
  Action, Result, ok, err, CycleError, query_failed, create_failed, initial_peak_failed,
  close_failed, new_cycle_failed, update_failed, ◌>>=◌, ◌>>◌, modify, gets, or_fail,
}
use on_watch.Tracker.Synthetic.{grace_period, add_positive, raise_peak}

pub record AnthropicQuota (F : Type 0) : Type 0 where
  pub name : String
  pub utilization : F
  pub resets_at : Option ℕ

pub record AnthropicSnapshot (F : Type 0) : Type 0 where
  pub captured_at : ℕ
  pub quotas : List (AnthropicQuota F)

pub record AnthropicTracker (F : Type 0) : Type 0 where
  pub store : AnthropicCycles F
  pub last_values : Dict String F
  pub last_resets : Dict String ℕ
  pub has_last : Bool
  pub has_on_reset : Bool
  pub resets : List String

-- 10 minutes.
abbrev pub jitter_tolerance : ℕ
jitter_tolerance = 600 * 10 ^ 9

-- The absolute value of a difference of two times.
abbrev pub time_diff : ℕ → ℕ → ℕ
time_diff a b = (a - b) + (b - a)

abbrev pub has_passed : ℕ → Option ℕ → Bool
has_passed captured_at none = false
has_passed captured_at (some stored) = ltb (stored + grace_period) captured_at

abbrev pub has_moved : Option ℕ → Option ℕ → Bool
has_moved none _ = false
has_moved (some reported) none = true
has_moved (some reported) (some stored) = ltb jitter_tolerance (time_diff reported stored)

-- The two methods: by the stored time, and by the time that the API reports.
unfoldable pub is_reset_detected : ℕ → Option ℕ → Option ℕ → Bool
is_reset_detected captured_at stored reported =
    has_passed captured_at stored || has_moved reported stored

abbrev pub cycle_end_time : ℕ → Option ℕ → ℕ
cycle_end_time captured_at none = captured_at
cycle_end_time captured_at (some stored) = if ltb stored captured_at then stored else captured_at

abbrev pub insert_reset : String → Option ℕ → Dict String ℕ → Dict String ℕ
insert_reset name none resets = resets
insert_reset name (some at) resets = insert name at resets

module _ {F : Type 0} where
  abbrev pub call :
      {A : Type 0}
      → CycleError
      → (AnthropicCycles F → Option A × AnthropicCycles F)
      → Action (AnthropicTracker F) A
  call e f t = let (r, s) = f t.store in (or_fail e r, record t { store = s })

  -- `lastValues` and `lastResets` after a quota was handled.
  abbrev pub remember : AnthropicQuota F → AnthropicTracker F → AnthropicTracker F
  remember quota t = record t {
    last_values = insert quota.name quota.utilization t.last_values;
    last_resets = insert_reset quota.name quota.resets_at t.last_resets;
  }

  abbrev pub call_on_reset : String → AnthropicTracker F → AnthropicTracker F
  call_on_reset name t = if t.has_on_reset then record t { resets = t.resets ++ name ∷ [] } else t

  -- `t.lastValues[quotaName]`, where `hasLast`.
  abbrev pub last_value : String → AnthropicTracker F → Option F
  last_value name t = if t.has_last then lookup name t.last_values else none

module _ {F : Type 0} ⦃fl : Float64 F⦄ where
  -- Peak and total with the change since the last value, if there is one.
  abbrev pub grown : F → AnthropicCycle F → Option F → F × F
  grown util cycle none = (cycle.peak, cycle.total_delta)
  grown util cycle (some last_util) =
      (raise_peak cycle.peak util, add_positive cycle.total_delta util last_util)

  pub first_snapshot : AnthropicQuota F → ℕ → Action (AnthropicTracker F) (Unit {0})
  first_snapshot quota captured_at = do
    call create_failed (create_anthropic_cycle quota.name captured_at quota.resets_at)
    call initial_peak_failed (update_anthropic_cycle quota.name quota.utilization fl.zero)
    modify (remember quota)

  pub renew : AnthropicQuota F → ℕ → AnthropicCycle F → Action (AnthropicTracker F) (Unit {0})
  renew quota captured_at cycle = do
    final ← gets (λ t. grown quota.utilization cycle (last_value quota.name t))
    call close_failed (
        close_anthropic_cycle quota.name (cycle_end_time captured_at cycle.resets_at) final.0
          final.1)
    call new_cycle_failed (create_anthropic_cycle quota.name captured_at quota.resets_at)
    call initial_peak_failed (update_anthropic_cycle quota.name quota.utilization fl.zero)
    modify (remember quota)
    modify (call_on_reset quota.name)

  -- With no last value the row is written only if its peak rises.
  abbrev pub save_grown :
      AnthropicQuota F → AnthropicCycle F → Option F → Action (AnthropicTracker F) (Unit {0})
  save_grown quota cycle (some last_util) = call update_failed (
      update_anthropic_cycle quota.name (raise_peak cycle.peak quota.utilization)
        (add_positive cycle.total_delta quota.utilization last_util))
  save_grown quota cycle none =
      if fl.lt cycle.peak quota.utilization
      then call update_failed
          (update_anthropic_cycle quota.name quota.utilization cycle.total_delta)
      else modify (λ t. t)

  pub same_cycle : AnthropicQuota F → AnthropicCycle F → Action (AnthropicTracker F) (Unit {0})
  same_cycle quota cycle = do
    last ← gets (last_value quota.name)
    save_grown quota cycle last
    modify (remember quota)

  abbrev pub dispatch :
      AnthropicQuota F → ℕ → Option (AnthropicCycle F) → Action (AnthropicTracker F) (Unit {0})
  dispatch quota captured_at none = first_snapshot quota captured_at
  dispatch quota captured_at (some cycle) =
      if is_reset_detected captured_at cycle.resets_at quota.resets_at
      then renew quota captured_at cycle
      else same_cycle quota cycle

  unfoldable pub process_quota : AnthropicQuota F → ℕ → Action (AnthropicTracker F) (Unit {0})
  unfolding first_snapshot renew same_cycle is_reset_detected
  process_quota quota captured_at = do
    cycle ← call query_failed (query_active_anthropic_cycle quota.name)
    dispatch quota captured_at cycle

  pub process_quotas : ℕ → List (AnthropicQuota F) → Action (AnthropicTracker F) (Unit {0})
  unfolding process_quota
  process_quotas captured_at [] = modify (λ t. t)
  process_quotas captured_at (quota ∷ rest) =
      process_quota quota captured_at >> process_quotas captured_at rest

  unfoldable pub process : AnthropicSnapshot F → Action (AnthropicTracker F) (Unit {0})
  unfolding process_quotas
  process snapshot = do
    process_quotas snapshot.captured_at snapshot.quotas
    modify (λ t. record t { has_last = true })
