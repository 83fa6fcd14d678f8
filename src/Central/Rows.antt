-- ===== src/Central/Rows.antt =====
-- The rows of the central tables, and the searches that the statements of internal/store/central.go
-- make in them.
use text.Mathlib.Text.{◌==◌ as str_eq}
use on_watch.Base.{
  ℕ, Bool, false, ◌&&◌, ◌||◌, Option, none, some, List, [], ◌∷◌, ◌++◌, map, String, ◌==◌,
  if◌then◌else◌,
}
use on_watch.Ingest.{has_seen}
use on_watch.Ingest.Validation.{QuotaMetric}
use on_watch.Central.Tables.{
  Provenance, Owner, server, device, PollOwnerRow, UsageEvent, Metadata, UsageRow, SnapshotRow,
}

-- `normalizedTokenValue`.
abbrev pub normalized_token_value : Option ℕ → ℕ → ℕ
normalized_token_value none fallback = fallback
normalized_token_value (some value) fallback = value

-- The row of the active owner, which the unique index allows once.
unfoldable pub active_owner : String → String → List PollOwnerRow → Option Owner
active_owner provider account [] = none
active_owner provider account (row ∷ rows) = elim row.ended_at [
  | some _ ↦ active_owner provider account rows
  | none ↦
      if str_eq row.provider provider && str_eq row.external_account_id account
      then some row.owner
      else active_owner provider account rows
]

-- Whether the active owner is this device.
abbrev pub is_owned_by : String → Option Owner → Bool
is_owned_by id none = false
is_owned_by id (some server) = false
is_owned_by id (some (device other)) = str_eq other id

abbrev pub has_provenance : String → String → List Provenance → Bool
has_provenance d id [] = false
has_provenance d id (p ∷ ps) =
    (str_eq p.device_id d && str_eq p.event_id id) || has_provenance d id ps

module _ {F : Type 0} where
  abbrev pub usage_row : UsageEvent F → Metadata → ℕ → ℕ → UsageRow F
  usage_row e m now id = record {
    id = id;
    captured_at = e.timestamp;
    integration_name = e.integration;
    provider = e.provider;
    account_name = e.account;
    model = e.model;
    request_id = e.request_id;
    prompt_tokens = e.prompt_tokens;
    completion_tokens = e.completion_tokens;
    total_tokens = e.total_tokens;
    cost_usd = e.cost_usd;
    latency_ms = e.latency_ms;
    metadata_json = m.stored;
    session_id = m.session_id;
    reasoning_effort = m.reasoning_effort;
    mode = m.mode;
    speed_mode = m.speed_mode;
    input_tokens = normalized_token_value m.input_tokens e.prompt_tokens;
    cached_input_tokens = normalized_token_value m.cached_input_tokens 0;
    cache_creation_input_tokens = normalized_token_value m.cache_creation_input_tokens 0;
    output_tokens = normalized_token_value m.output_tokens e.completion_tokens;
    reasoning_output_tokens = normalized_token_value m.reasoning_output_tokens 0;
    source_path = e.source_path;
    fingerprint = e.fingerprint;
    created_at = now;
  }

  -- `SELECT id … WHERE fingerprint = ?`
  unfoldable pub find_usage : String → List (UsageRow F) → Option ℕ
  find_usage fingerprint [] = none
  find_usage fingerprint (row ∷ rows) =
      if str_eq row.fingerprint fingerprint then some row.id else find_usage fingerprint rows

  abbrev pub add_value : ℕ → QuotaMetric F → SnapshotRow F → SnapshotRow F
  add_value id metric row =
      if row.id == id then record row { values = row.values ++ metric ∷ [] } else row

  -- `UNIQUE(snapshot_id, metric_name)`.
  abbrev pub has_value : ℕ → String → List (SnapshotRow F) → Bool
  has_value id name [] = false
  has_value id name (row ∷ rows) =
      (row.id == id && has_seen name (map (λ m. QuotaMetric.name m) row.values))
      || has_value id name rows

  abbrev pub has_usage_row : ℕ → List (UsageRow F) → Bool
  has_usage_row id [] = false
  has_usage_row id (row ∷ rows) = row.id == id || has_usage_row id rows

  abbrev pub enrich_row : ℕ → Metadata → UsageRow F → UsageRow F
  enrich_row id m row =
      if row.id == id
      then record row {
        metadata_json = m.stored;
        session_id = m.session_id;
        reasoning_effort = m.reasoning_effort;
        mode = m.mode;
        speed_mode = m.speed_mode;
      }
      else row
