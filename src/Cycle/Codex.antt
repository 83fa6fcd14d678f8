-- ===== src/Cycle/Codex.antt =====
-- The calls of the table `codex_reset_cycles` in internal/store/codex_store.go. A quota is known
-- by its account and its name; account 0 stands for the default account.
use on_watch.Base.{
  ℕ, Option, Bool, true, ◌&&◌, ◌≡◌, ◌↔◌, String, ◌==◌, Eq, string_eq, nat_eq, if◌then◌else◌, arith,
}
use on_watch.Float.{Float64}
use on_watch.Cycle.{
  Row, CycleStore, query_active_cycle, create_cycle, close_cycle, update_cycle,
  update_cycle_resets_at,
}

pub record CodexKey : Type 0 where
  pub account : ℕ
  pub name : String

abbrev codex_key_beq : CodexKey → CodexKey → Bool
codex_key_beq a b = a.account == b.account && string_eq.beq a.name b.name

pub codex_key_beq_iff : (a b : CodexKey) → (codex_key_beq a b ≡ true) ↔ (a ≡ b)
codex_key_beq_iff a b = ground (arith, string_eq.beq_iff a.name b.name)

instance abbrev pub codex_key_eq : Eq CodexKey
codex_key_eq = record { beq = codex_key_beq; beq_iff = codex_key_beq_iff }

abbrev pub default_codex_account_id : ℕ
default_codex_account_id = 1

abbrev pub codex_key : ℕ → String → CodexKey
codex_key account_id quota_name = record {
  account = if account_id == 0 then default_codex_account_id else account_id;
  name = quota_name;
}

abbrev pub CodexCycle : Type 0 → Type 0
CodexCycle F = Row F CodexKey (Option ℕ)

abbrev pub CodexCycles : Type 0 → Type 0
CodexCycles F = CycleStore F CodexKey (Option ℕ)

module _ {F : Type 0} ⦃fl : Float64 F⦄ where
  abbrev pub create_codex_cycle :
      ℕ → String → ℕ → Option ℕ → CodexCycles F → Option ℕ × CodexCycles F
  create_codex_cycle account_id quota_name cycle_start resets_at =
      create_cycle (codex_key account_id quota_name) cycle_start resets_at

module _ {F : Type 0} where
  abbrev pub close_codex_cycle :
      ℕ → String → ℕ → F → F → CodexCycles F → Option (Unit {0}) × CodexCycles F
  close_codex_cycle account_id quota_name cycle_end peak delta =
      close_cycle (codex_key account_id quota_name) cycle_end peak delta

  abbrev pub update_codex_cycle :
      ℕ → String → F → F → CodexCycles F → Option (Unit {0}) × CodexCycles F
  update_codex_cycle account_id quota_name peak delta =
      update_cycle (codex_key account_id quota_name) peak delta

  abbrev pub update_codex_cycle_resets_at :
      ℕ → String → Option ℕ → CodexCycles F → Option (Unit {0}) × CodexCycles F
  update_codex_cycle_resets_at account_id quota_name resets_at =
      update_cycle_resets_at (codex_key account_id quota_name) resets_at

  -- A time that does not parse is an error, like one of the query itself.
  abbrev pub query_active_codex_cycle :
      ℕ → String → CodexCycles F → Option (Option (CodexCycle F)) × CodexCycles F
  query_active_codex_cycle account_id quota_name =
      query_active_cycle (codex_key account_id quota_name)
