-- ===== src/Tests/Trackers.antt =====
-- The trackers of internal/tracker at concrete snapshots.
use on_watch.Base.{ℕ, ◌*◌, ◌≡◌, refl, true, Option, some, none, [], ◌∷◌, String, arith, string_eq}
use on_watch.Tests.Floats.{whole, whole-IsIeee}
use on_watch.Cycle.{first_open, Row, query_active_cycle, create_cycle, update_cycle}
use on_watch.Cycle.Laws.{open_count}
use on_watch.Cycle.Active.{active}
use on_watch.Cycle.Invariant.{HasOneOpen, IsSound}
use on_watch.Cycle.Codex.{CodexCycle, CodexKey, codex_key, codex_key_eq}
use on_watch.Tracker.Action.{ok}
use on_watch.Tracker.Synthetic.{
  QuotaInfo, Snapshot, last_sub, Tracker, hour, process_quota, process,
}
use on_watch.Tracker.Synthetic.Cycles.{process_quota-IsSound_synthetic}
use on_watch.Tracker.Synthetic.Processed.{Follows, process-Follows}
use on_watch.Tracker.Synthetic.Totals.{Next, resets_after, process_quota-Next}
use on_watch.Tracker.Anthropic.{
  AnthropicQuota, AnthropicSnapshot, AnthropicTracker, process_quota as anthropic_quota,
}
use on_watch.Tracker.Anthropic.Cycles.{process_quota-IsSound_anthropic}
use on_watch.Tracker.Codex.{
  CodexQuota, CodexSnapshot, CodexTracker, PendingCodexReset, reset, judge,
  process_quota as codex_quota,
}
use on_watch.Tracker.Codex.Confirmation.{judge-second_poll}
use on_watch.Tracker.Codex.Renewal.{IsRenewed, called, process_quota-two_polls}
use on_watch.Tracker.Codex.Cycles.{process_quota-IsSound_codex}

abbrev row : String → Row ℕ String ℕ
row name = record {
  id = 1;
  quota = name;
  cycle_start = 5;
  cycle_end = none;
  resets_at = hour;
  peak = 30;
  total_delta = 20;
}

abbrev tracker : Tracker ℕ
tracker = record {
  store = record { rows = row "search" ∷ []; next_id = 2; outcomes = [] };
  last_sub_requests = 0;
  last_search_requests = 30;
  last_tool_requests = 0;
  has_last_values = true;
  has_on_reset = true;
  resets = [];
}

abbrev info : ℕ → QuotaInfo ℕ
info requests = record { limit = 100; requests = requests; renews_at = hour }

tracker-HasOneOpen : HasOneOpen tracker.store
tracker-HasOneOpen quota = ground arith

abbrev snapshot : Snapshot ℕ
snapshot = record { captured_at = 10; sub = info 1; search = info 40; tool_call = info 3 }

process_quota-Next_example :
    (c : Row ℕ String ℕ) × (active "subscription"
        (process_quota "subscription" 10 (info 1) last_sub tracker).1.store
      ≡ some c)
    × Next 10 (info 1) (active "subscription" tracker.store) c
    × ((process_quota "subscription" 10 (info 1) last_sub tracker).1.resets
        ≡ resets_after "subscription" 10 (info 1) (active "subscription" tracker.store) true [])
unfolding process_quota query_active_cycle create_cycle update_cycle
process_quota-Next_example =
    process_quota-Next whole-IsIeee "subscription" 10 (info 1) last_sub tracker refl

process_quota-IsSound_synthetic_example :
    let r = process_quota "subscription" 10 (info 1) last_sub tracker in
    IsSound tracker.store r.1.store × (r.0 ≡ ok tt → open_count "subscription" r.1.store ≡ 1)
process_quota-IsSound_synthetic_example =
    process_quota-IsSound_synthetic "subscription" 10 (info 1) last_sub tracker tracker-HasOneOpen

abbrev anthropic_row : Row ℕ String (Option ℕ)
anthropic_row = record {
  id = 1;
  quota = "five_hour";
  cycle_start = 5;
  cycle_end = none;
  resets_at = some 100;
  peak = 30;
  total_delta = 20;
}

abbrev anthropic_tracker : AnthropicTracker ℕ
anthropic_tracker = record {
  store = record { rows = anthropic_row ∷ []; next_id = 2; outcomes = [] };
  last_values = ("five_hour", 30) ∷ [];
  last_resets = [];
  has_last = true;
  has_on_reset = true;
  resets = [];
}

anthropic_tracker-HasOneOpen : HasOneOpen anthropic_tracker.store
anthropic_tracker-HasOneOpen quota = ground arith

abbrev five_hour : AnthropicQuota ℕ
five_hour = record { name = "five_hour"; utilization = 40; resets_at = some 120 }

process_quota-IsSound_anthropic_example :
    let r = anthropic_quota five_hour 10 anthropic_tracker in
    IsSound anthropic_tracker.store r.1.store × (r.0 ≡ ok tt → open_count "five_hour" r.1.store ≡ 1)
process_quota-IsSound_anthropic_example =
    process_quota-IsSound_anthropic five_hour 10 anthropic_tracker anthropic_tracker-HasOneOpen

abbrev anthropic_snapshot : AnthropicSnapshot ℕ
anthropic_snapshot = record { captured_at = 10; quotas = five_hour ∷ [] }

abbrev weekly : CodexKey
weekly = record { account = 1; name = "weekly" }

abbrev week_later : ℕ
week_later = 7 * 24 * hour

abbrev weekly_row : Row ℕ CodexKey (Option ℕ)
weekly_row = record {
  id = 1;
  quota = weekly;
  cycle_start = 5;
  cycle_end = none;
  resets_at = some hour;
  peak = 30;
  total_delta = 20;
}

abbrev candidate : PendingCodexReset ℕ
candidate = record { utilization = 1; resets_at = some week_later; captured_at = 8 }

abbrev codex_tracker : CodexTracker ℕ
codex_tracker = record {
  store = record { rows = weekly_row ∷ []; next_id = 2; outcomes = [] };
  last_values = (weekly, 30) ∷ [];
  last_resets = [];
  pending_resets = (weekly, candidate) ∷ [];
  has_last = (1, true) ∷ [];
  has_on_reset = true;
  resets = [];
}

codex_tracker-HasOneOpen : HasOneOpen codex_tracker.store
codex_tracker-HasOneOpen quota = ground arith

abbrev weekly_quota : CodexQuota ℕ
weekly_quota = record { name = "weekly"; utilization = 2; resets_at = some week_later }

process_quota-IsSound_codex_example :
    let r = codex_quota 1 weekly_quota 10 codex_tracker in
    IsSound codex_tracker.store r.1.store
    × (r.0 ≡ ok tt → open_count (codex_key 1 "weekly") r.1.store ≡ 1)
process_quota-IsSound_codex_example =
    process_quota-IsSound_codex 1 weekly_quota 10 codex_tracker codex_tracker-HasOneOpen

abbrev codex_snapshot : CodexSnapshot ℕ
codex_snapshot = record { captured_at = 10; account_id = 0; quotas = weekly_quota ∷ [] }

process-Follows_example :
    let r = process snapshot tracker in
    (r.0 ≡ ok tt)
    × Follows "subscription" 10 (info 1) tracker r.1
    × Follows "search" 10 (info 40) tracker r.1
    × Follows "toolcall" 10 (info 3) tracker r.1
process-Follows_example = process-Follows whole-IsIeee snapshot tracker refl

abbrev waiting_tracker : CodexTracker ℕ
waiting_tracker = record codex_tracker { pending_resets = [] }

judge-second_poll_example :
    (judge 1 weekly_quota 11 (some hour) (judge 1 weekly_quota 10 (some hour) waiting_tracker).1).0
    ≡ reset
unfolding judge
judge-second_poll_example =
    judge-second_poll 1 weekly_quota 10 11 hour waiting_tracker refl (ground arith) refl

process_quota-two_polls_example :
    let first = codex_quota 1 weekly_quota 10 waiting_tracker in
    let second = codex_quota 1 weekly_quota 11 first.1 in
    (first.0 ≡ ok tt)
    × (first.1.store.rows ≡ weekly_row ∷ [])
    × (first.1.last_values ≡ (weekly, 30) ∷ [])
    × (first.1.resets ≡ [])
    × (second.0 ≡ ok tt)
    × ((n : CodexCycle ℕ) × (first_open weekly second.1.store.rows ≡ some n)
        × IsRenewed 11 weekly_quota n)
    × (second.1.resets ≡ called "weekly" waiting_tracker)
process_quota-two_polls_example =
    process_quota-two_polls 1 weekly_quota 10 11 hour week_later weekly_row waiting_tracker refl
      refl refl refl refl (ground arith) (ground arith) (ground arith, refl) refl
