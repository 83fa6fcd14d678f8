-- ===== src/Tracker/Synthetic.antt =====
-- `Tracker` of internal/tracker/tracker.go: the reset cycles of the three Synthetic quotas.
-- Times are nanoseconds since the zero time of Go.
pub mod Detection
pub mod Cycles
pub mod Totals
pub mod Processed
pub mod Success
use on_watch.Base.{
  ℕ, ◌+◌, ◌-◌, ◌*◌, ◌%◌, ◌^◌, Bool, true, false, not, ◌&&◌, ◌||◌, Option, none, some, List, [], ◌∷◌,
  ◌++◌, String, string_eq, ltb, ◌==◌, if◌then◌else◌,
}
use on_watch.Float.{Float64}
use on_watch.Cycle.{Row, CycleStore, query_active_cycle, create_cycle, close_cycle, update_cycle}
use on_watch.Tracker.Action.{
  Action, Result, ok, err, CycleError, query_failed, create_failed, initial_peak_failed,
  close_failed, new_cycle_failed, update_failed, ◌>>=◌, ◌>>◌, modify, gets, or_fail,
}

abbrev pub ResetCycle : Type 0 → Type 0
ResetCycle F = Row F String ℕ

pub record QuotaInfo (F : Type 0) : Type 0 where
  pub limit : F
  pub requests : F
  pub renews_at : ℕ

pub record Snapshot (F : Type 0) : Type 0 where
  pub captured_at : ℕ
  pub sub : QuotaInfo F
  pub search : QuotaInfo F
  pub tool_call : QuotaInfo F

-- The field that `lastRequests` points to.
pub data Slot : Type 0 where
  last_sub last_search last_tool : Slot

-- `resets` holds the names that the `onReset` callback was called with, where one is set.
pub record Tracker (F : Type 0) : Type 0 where
  pub store : CycleStore F String ℕ
  pub last_sub_requests : F
  pub last_search_requests : F
  pub last_tool_requests : F
  pub has_last_values : Bool
  pub has_on_reset : Bool
  pub resets : List String

-- 2 minutes and 1 hour.
abbrev pub grace_period : ℕ
grace_period = 120 * 10 ^ 9

abbrev pub hour : ℕ
hour = 3600 * 10 ^ 9

-- `Truncate(time.Hour)`
abbrev pub truncate_hour : ℕ → ℕ
truncate_hour t = t - t % hour

unfoldable pub is_reset_detected : ℕ → ℕ → ℕ → Bool
is_reset_detected captured_at stored_renews_at renews_at =
    ltb (stored_renews_at + grace_period) captured_at
    || not (truncate_hour stored_renews_at == truncate_hour renews_at)

abbrev pub cycle_end_time : ℕ → ℕ → ℕ
cycle_end_time captured_at stored_renews_at =
    if ltb stored_renews_at captured_at then stored_renews_at else captured_at

module _ {F : Type 0} where
  abbrev pub last_requests : Slot → Tracker F → F
  last_requests last_sub t = t.last_sub_requests
  last_requests last_search t = t.last_search_requests
  last_requests last_tool t = t.last_tool_requests

  abbrev pub set_last_requests : Slot → F → Tracker F → Tracker F
  set_last_requests last_sub v t = record t { last_sub_requests = v }
  set_last_requests last_search v t = record t { last_search_requests = v }
  set_last_requests last_tool v t = record t { last_tool_requests = v }

  abbrev pub call :
      {A : Type 0}
      → CycleError
      → (CycleStore F String ℕ → Option A × CycleStore F String ℕ)
      → Action (Tracker F) A
  call e f t = let (r, s) = f t.store in (or_fail e r, record t { store = s })

  abbrev pub call_on_reset : String → Tracker F → Tracker F
  call_on_reset quota_type t =
      if t.has_on_reset then record t { resets = t.resets ++ quota_type ∷ [] } else t

module _ {F : Type 0} ⦃fl : Float64 F⦄ where
  -- `delta := a - b; if delta > 0 { total += delta }`
  abbrev pub add_positive : F → F → F → F
  add_positive total a b = if fl.lt fl.zero (fl.sub a b) then fl.add total (fl.sub a b) else total

  abbrev pub raise_peak : F → F → F
  raise_peak peak v = if fl.lt peak v then v else peak

  -- The branch of a quota with no open cycle.
  pub first_snapshot : String → ℕ → QuotaInfo F → Slot → Action (Tracker F) (Unit {0})
  first_snapshot quota_type captured_at info slot = do
    call create_failed (create_cycle quota_type captured_at info.renews_at)
    call initial_peak_failed (update_cycle quota_type info.requests fl.zero)
    modify (set_last_requests slot info.requests)

  -- The total that the old cycle is closed with.
  abbrev pub final_total : Slot → QuotaInfo F → ResetCycle F → Tracker F → F
  final_total slot info cycle t =
      if t.has_last_values
      then add_positive cycle.total_delta info.requests (last_requests slot t)
      else cycle.total_delta

  -- The branch of a detected reset.
  pub renew : String → ℕ → QuotaInfo F → Slot → ResetCycle F → Action (Tracker F) (Unit {0})
  renew quota_type captured_at info slot cycle = do
    total ← gets (final_total slot info cycle)
    call close_failed
        (close_cycle quota_type (cycle_end_time captured_at cycle.resets_at) cycle.peak total)
    call new_cycle_failed (create_cycle quota_type captured_at info.renews_at)
    call initial_peak_failed (update_cycle quota_type info.requests fl.zero)
    modify (set_last_requests slot info.requests)
    modify (call_on_reset quota_type)

  -- The branch of the same cycle.
  pub same_cycle : String → QuotaInfo F → Slot → ResetCycle F → Action (Tracker F) (Unit {0})
  same_cycle quota_type info slot cycle t =
      let peak = raise_peak cycle.peak info.requests in
      let total = add_positive cycle.total_delta info.requests (last_requests slot t) in
      let save = call update_failed (update_cycle quota_type peak total) in
      let save_peak = call update_failed (update_cycle quota_type peak cycle.total_delta) in
      let finish = modify (set_last_requests slot info.requests) in
      if t.has_last_values
      then (save >> finish) t
      else if fl.lt cycle.peak info.requests
      then (save_peak >> finish) t
      else finish t

  abbrev pub dispatch :
      String → ℕ → QuotaInfo F → Slot → Option (ResetCycle F) → Action (Tracker F) (Unit {0})
  dispatch quota_type captured_at info slot none = first_snapshot quota_type captured_at info slot
  dispatch quota_type captured_at info slot (some cycle) =
      if is_reset_detected captured_at cycle.resets_at info.renews_at
      then renew quota_type captured_at info slot cycle
      else same_cycle quota_type info slot cycle

  unfoldable pub process_quota : String → ℕ → QuotaInfo F → Slot → Action (Tracker F) (Unit {0})
  unfolding first_snapshot renew same_cycle is_reset_detected
  process_quota quota_type captured_at info slot = do
    cycle ← call query_failed (query_active_cycle quota_type)
    dispatch quota_type captured_at info slot cycle

  unfoldable pub process : Snapshot F → Action (Tracker F) (Unit {0})
  unfolding process_quota
  process snapshot = do
    process_quota "subscription" snapshot.captured_at snapshot.sub last_sub
    process_quota "search" snapshot.captured_at snapshot.search last_search
    process_quota "toolcall" snapshot.captured_at snapshot.tool_call last_tool
    modify (λ t. record t { has_last_values = true })
