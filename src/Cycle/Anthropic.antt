-- ===== src/Cycle/Anthropic.antt =====
-- The calls of the table `anthropic_reset_cycles` in internal/store/anthropic_store.go. A missing
-- reset time is NULL.
use on_watch.Base.{ℕ, Option, String, string_eq}
use on_watch.Float.{Float64}
use on_watch.Cycle.{Row, CycleStore, query_active_cycle, create_cycle, close_cycle, update_cycle}

abbrev pub AnthropicCycle : Type 0 → Type 0
AnthropicCycle F = Row F String (Option ℕ)

abbrev pub AnthropicCycles : Type 0 → Type 0
AnthropicCycles F = CycleStore F String (Option ℕ)

module _ {F : Type 0} ⦃fl : Float64 F⦄ where
  abbrev pub create_anthropic_cycle :
      String → ℕ → Option ℕ → AnthropicCycles F → Option ℕ × AnthropicCycles F
  create_anthropic_cycle quota_name cycle_start resets_at =
      create_cycle quota_name cycle_start resets_at

abbrev pub close_anthropic_cycle :
    {F : Type 0} → String → ℕ → F → F → AnthropicCycles F → Option (Unit {0}) × AnthropicCycles F
close_anthropic_cycle quota_name cycle_end peak delta = close_cycle quota_name cycle_end peak delta

abbrev pub update_anthropic_cycle :
    {F : Type 0} → String → F → F → AnthropicCycles F → Option (Unit {0}) × AnthropicCycles F
update_anthropic_cycle quota_name peak delta = update_cycle quota_name peak delta

abbrev pub query_active_anthropic_cycle :
    {F : Type 0}
    → String
    → AnthropicCycles F
    → Option (Option (AnthropicCycle F)) × AnthropicCycles F
query_active_anthropic_cycle quota_name = query_active_cycle quota_name
