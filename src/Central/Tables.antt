-- ===== src/Central/Tables.antt =====
-- The central tables (`ensureCentralSchema` of internal/store/central.go), and a statement on them.
-- A table with a primary key is a map, the others are lists, the oldest row first. A time is stored
-- as its nanoseconds, a digest as its hex text, and `desired_config_json` as the configuration that
-- it encodes. The tables that the mirror and the telemetry write are any type `W`.
use on_watch.Base.{
  ℕ, Bool, true, not, ◌&&◌, Option, none, some, List, [], ◌∷◌, String, ◌≡◌, ◌↔◌, arith,
  if◌then◌else◌, Dict, Eq, string_eq,
}
use text.Mathlib.Text.{◌==◌ as str_eq}
use text.Mathlib.TextEquality.{eq_iff}
use on_watch.Ingest.Desired.{DesiredConfig}
use on_watch.Ingest.Validation.{QuotaMetric}

pub pair_eq_iff : (a b : String × String) → ((str_eq a.0 b.0 && str_eq a.1 b.1) ≡ true) ↔ (a ≡ b)
pair_eq_iff (a, b) (c, d) =
    ((λ h. ground (arith, eq_iff a c, eq_iff b d)), (λ h. ground (arith, eq_iff a c, eq_iff b d)))

instance abbrev pub pair_eq : Eq (String × String)
pair_eq = record { beq = λ a b. str_eq a.0 b.0 && str_eq a.1 b.1; beq_iff = pair_eq_iff }

-- The row of `devices`, but for its key; columns that nothing reads back are left to `Device`.
pub record DeviceRow : Type 0 where
  pub name : String
  pub token_digest : String
  pub platform : String
  pub collector_version : String
  pub created_at : ℕ
  pub rotated_at : Option ℕ
  pub revoked_at : Option ℕ
  pub last_heartbeat_at : Option ℕ
  pub last_accepted_event_at : Option ℕ
  pub queue_bytes : ℕ
  pub pending_events : ℕ
  pub oldest_queued_at : Option ℕ
  pub last_upload_at : Option ℕ
  pub desired_config_revision : ℕ
  pub desired_config : DesiredConfig

-- `target_table` with `target_record_id`.
pub data Target : Type 0 where
  usage_events : ℕ → Target
  compacted_fingerprints : String → Target
  quota_snapshots : ℕ → Target

-- The row of `ingest_receipts`, but for its key.
pub record Receipt : Type 0 where
  pub immutable_digest : String
  pub payload_digest : String
  pub payload_json : String
  pub event_kind : String
  pub status : String
  pub target : Target
  pub accepted_at : ℕ
  pub enriched_at : Option ℕ

pub record Provenance : Type 0 where
  pub target : Target
  pub device_id : String
  pub event_id : String
  pub observed_at : ℕ

-- The row of `provider_poll_owners`; its kind and its device are `owner`: the server, or a device.
pub data Owner : Type 0 where
  server : Owner
  device : String → Owner

pub record PollOwnerRow : Type 0 where
  pub provider : String
  pub external_account_id : String
  pub owner : Owner
  pub effective_at : ℕ
  pub ended_at : Option ℕ

-- What `ParseUsageEventLine` returns.
pub record UsageEvent (F : Type 0) : Type 0 where
  pub timestamp : ℕ
  pub integration : String
  pub provider : String
  pub account : String
  pub model : String
  pub request_id : String
  pub prompt_tokens : ℕ
  pub completion_tokens : ℕ
  pub total_tokens : ℕ
  pub cost_usd : Option F
  pub latency_ms : Option ℕ
  pub metadata_json : String
  pub source_path : String
  pub fingerprint : String

-- What `normalizedAPIIntegrationMetadata` returns; `stored` is its text.
pub record Metadata : Type 0 where
  pub stored : String
  pub session_id : String
  pub reasoning_effort : String
  pub mode : String
  pub speed_mode : String
  pub input_tokens : Option ℕ
  pub cached_input_tokens : Option ℕ
  pub cache_creation_input_tokens : Option ℕ
  pub output_tokens : Option ℕ
  pub reasoning_output_tokens : Option ℕ

-- The row of `api_integration_usage_events`.
pub record UsageRow (F : Type 0) : Type 0 where
  pub id : ℕ
  pub captured_at : ℕ
  pub integration_name : String
  pub provider : String
  pub account_name : String
  pub model : String
  pub request_id : String
  pub prompt_tokens : ℕ
  pub completion_tokens : ℕ
  pub total_tokens : ℕ
  pub cost_usd : Option F
  pub latency_ms : Option ℕ
  pub metadata_json : String
  pub session_id : String
  pub reasoning_effort : String
  pub mode : String
  pub speed_mode : String
  pub input_tokens : ℕ
  pub cached_input_tokens : ℕ
  pub cache_creation_input_tokens : ℕ
  pub output_tokens : ℕ
  pub reasoning_output_tokens : ℕ
  pub source_path : String
  pub fingerprint : String
  pub created_at : ℕ

-- The row of `central_quota_snapshots` with its rows of `central_quota_values`.
pub record SnapshotRow (F : Type 0) : Type 0 where
  pub id : ℕ
  pub provider : String
  pub external_account_id : String
  pub account_label : String
  pub captured_at : ℕ
  pub created_at : ℕ
  pub values : List (QuotaMetric F)

-- `last_usage_id` and `last_snapshot_id` are the counters of AUTOINCREMENT.
pub record Tables (F W : Type 0) : Type 0 where
  pub devices : Dict String DeviceRow
  pub receipts : Dict (String × String) Receipt
  pub provenance : List Provenance
  pub owners : List PollOwnerRow
  pub usage : List (UsageRow F)
  pub last_usage_id : ℕ
  pub compacted : List String
  pub snapshots : List (SnapshotRow F)
  pub last_snapshot_id : ℕ
  pub other : W

-- `faults` are the statements to come: `true` is one that fails. With none left only a broken
-- constraint makes one fail.
pub record Database (F W : Type 0) : Type 0 where
  pub tables : Tables F W
  pub faults : List Bool

-- A sequence of statements; `none` is an error. The transaction around it rolls back.
abbrev pub Statements : Type 0 → Type 0 → Type 0 → Type 0
Statements F W A = Database F W → Option A × Database F W

module _ {F W : Type 0} where
  abbrev pub and_then :
      {A B : Type 0} → (A → Statements F W B) → Option A × Database F W → Option B × Database F W
  and_then f (some a, db) = f a db
  and_then f (none, db) = (none, db)

  infixl 5 ◌>>=◌ ◌>>◌
  abbrev pub ◌>>=◌ : {A B : Type 0} → Statements F W A → (A → Statements F W B) → Statements F W B
  ◌>>=◌ m f db = and_then f (m db)

  abbrev pub ◌>>◌ : {A B : Type 0} → Statements F W A → Statements F W B → Statements F W B
  m >> k = m >>= λ _. k

  abbrev pub pure : {A : Type 0} → A → Statements F W A
  pure a db = (some a, db)

  -- Whether the next statement works.
  unfoldable pub attempt : Statements F W Bool
  attempt db = elim db.faults [
    | [] ↦ (some true, db)
    | ◌∷◌ fails rest ↦ (some (not fails), record db { faults = rest })
  ]

  abbrev pub or_fail : {A : Type 0} → Option A → Statements F W A
  or_fail o db = (o, db)

  abbrev pub put : Tables F W → Statements F W (Unit {0})
  put t db = (some tt, record db { tables = t })

  abbrev pub gets : {A : Type 0} → (Tables F W → A) → Statements F W A
  gets f db = (some (f db.tables), db)

  abbrev pub statement : Statements F W (Unit {0})
  statement = attempt >>= λ works. or_fail (if works then some tt else none)

  abbrev pub query : {A : Type 0} → (Tables F W → A) → Statements F W A
  query f = statement >> gets f

  -- A change that breaks a constraint gives `none`.
  abbrev pub exec : (Tables F W → Option (Tables F W)) → Statements F W (Unit {0})
  exec change = query change >>= λ t. or_fail t >>= put

  -- `Begin` and `Commit` with the rollback of an error.
  abbrev pub close_transaction :
      {A : Type 0} → Tables F W → Option A × Database F W → Option A × Database F W
  close_transaction before (some a, db) = (some a, db)
  close_transaction before (none, db) = (none, record db { tables = before })

  abbrev pub transaction : {A : Type 0} → Statements F W A → Statements F W A
  transaction body db =
      close_transaction db.tables ((statement >> (body >>= λ a. statement >> pure a)) db)
