-- ===== src/Ingest.antt =====
-- What a collector and the ingest server exchange (internal/ingest/types.go). Times are
-- nanoseconds since the zero time; a payload is its JSON text.
pub mod Decoding
pub mod Desired
pub mod Validation
use text.Mathlib.Text.{◌==◌ as str_eq}
use on_watch.Base.{ℕ, String, Bool, true, false, ◌||◌, List, [], ◌∷◌}

-- The 64 KiB of `MaxEventBytes`.
abbrev pub max_event_bytes : ℕ
max_event_bytes = 65536

pub record Account : Type 0 where
  pub external_id : String
  pub label : String

pub record Event : Type 0 where
  pub event_id : String
  pub kind : String
  pub captured_at : ℕ
  pub provider : String
  pub account : Account
  pub payload : String

-- Revisions are counted from 0 by the server.
pub record Batch : Type 0 where
  pub schema_version : ℕ
  pub device_id : String
  pub collector_version : String
  pub config_revision : ℕ
  pub sent_at : ℕ
  pub events : List Event

pub record EventResult : Type 0 where
  pub event_id : String
  pub status : String
  pub code : String

-- The index `seen[id]` of a map of identifiers.
abbrev pub has_seen : String → List String → Bool
has_seen id [] = false
has_seen id (other ∷ ids) = str_eq other id || has_seen id ids

-- The loop of `DecodeBatch` over the identifiers.
abbrev pub has_duplicate : List String → List Event → Bool
has_duplicate seen [] = false
has_duplicate seen (e ∷ es) = has_seen e.event_id seen || has_duplicate (e.event_id ∷ seen) es
