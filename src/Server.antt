-- ===== src/Server.antt =====
-- The ingest server (internal/ingestserver/server.go): the handler of a batch over the central
-- tables, with the counters of its metrics. A handler is given the request, its
-- clock and the outcomes of the statements to come. What the decoders of `encoding/json` and
-- `strings.EqualFold` do is a parameter.
pub mod Answers
pub mod Heartbeat
pub mod Exchange
pub mod Delivered
use Prim.Native.String.{len, slice}
use Prim.Native.Char.{code}
use text.Mathlib.Text.{◌==◌ as str_eq, starts_with}
use on_watch.Base.{
  ℕ, suc, ◌+◌, Bool, true, false, not, ◌&&◌, ◌||◌, Option, none, some, List, [], ◌∷◌, String, ltb,
  ◌==◌, if◌then◌else◌, length, Dict, lookup, insert, string_eq,
}
use on_watch.Ingest.{Event, Batch, EventResult}
use on_watch.Ingest.Decoding.{
  Decoded, failed, decoded, decode_batch, max_request_bytes, schema_version, validate_device_id,
}
use on_watch.Ingest.Validation.{
  Payloads, EventError, event_size, invalid_event_id, unknown_event_kind, future_timestamp,
  observation_too_old, invalid_provider, invalid_account, forbidden_payload_field,
  invalid_quota_payload, validate,
}
use on_watch.Collector.Upload.{BatchResponse}
use on_watch.Collector.Heartbeat.{HeartbeatResponse}
use on_watch.Central.Tables.{DeviceRow, Database, Statements, or_fail}
use on_watch.Central.Payload.{Externals}
use on_watch.Central.Storing.{answer, reject, store_ingest_batch}
use on_watch.Central.Devices.{
  Device, DeviceHeartbeat, authenticate_device, record_heartbeat, bare_config,
}

-- `body` is what the client sends, `none` where the connection breaks.
pub record Request : Type 0 where
  pub method : String
  pub content_type : String
  pub authorization : String
  pub body : Option (List ℕ)

-- An HTTP error, or the body of a 200; the time of the server is left out.
pub data Response (A : Type 0) : Type 0 where
  http_error : ℕ → Response A
  http_ok : A → Response A

-- The counters are natural numbers: 2 ^ 64 is out of reach.
pub record Server (F W : Type 0) : Type 0 where
  pub database : Database F W
  pub accepted : ℕ
  pub duplicates : ℕ
  pub rejected : ℕ
  pub heartbeats : ℕ

-- `stableCode` of an error of `Validate`, whose texts have neither a colon nor a space.
abbrev pub stable_code : EventError → String
stable_code event_size = "event_size"
stable_code invalid_event_id = "invalid_event_id"
stable_code unknown_event_kind = "unknown_event_kind"
stable_code future_timestamp = "future_timestamp"
stable_code observation_too_old = "observation_too_old"
stable_code invalid_provider = "invalid_provider"
stable_code invalid_account = "invalid_account"
stable_code forbidden_payload_field = "forbidden_payload_field"
stable_code invalid_quota_payload = "invalid_quota_payload"

-- `strings.Split(value, ";")[0]`
pub before_semicolon : String → String
before_semicolon String.[] = String.[]
before_semicolon (String.◌∷◌ c s) =
    let rest = before_semicolon s in if code c == b';' then String.[] else String.◌∷◌ c rest

abbrev pub limited : ℕ → Option (List ℕ) → Option (List ℕ)
limited max none = none
limited max (some body) = if ltb max (length body) then none else some body

-- The map from an identifier to the last result with it.
pub by_id : Dict String EventResult → List EventResult → Dict String EventResult
by_id d [] = d
by_id d (r ∷ rs) = by_id (insert r.event_id r d) rs

-- The counter of a stored result.
abbrev pub tally_one : {F W : Type 0} → String → Server F W → Server F W
tally_one status s =
    if str_eq status "accepted" || str_eq status "enriched"
    then record s { accepted = suc s.accepted }
    else if str_eq status "duplicate"
    then record s { duplicates = suc s.duplicates }
    else if str_eq status "rejected"
    then record s { rejected = suc s.rejected }
    else s

pub tally : {F W : Type 0} → List EventResult → Server F W → Server F W
tally [] s = s
tally (r ∷ rs) s = tally rs (tally_one r.status s)

module _ {F : Type 0} (p : Payloads F) where
  -- The events that pass `Validate`, and the number of the others.
  pub valid_events : ℕ → List Event → List Event
  valid_events now [] = []
  valid_events now (e ∷ es) =
      let rest = valid_events now es in elim (validate p now e) [ none ↦ e ∷ rest | some _ ↦ rest ]

  pub invalid_count : ℕ → List Event → ℕ
  invalid_count now [] = 0
  invalid_count now (e ∷ es) =
      let rest = invalid_count now es in elim (validate p now e) [ none ↦ rest | some _ ↦ suc rest ]

  -- `results[i]` before anything is stored.
  pub first_result : ℕ → Event → EventResult
  first_result now e = elim (validate p now e) [
    | none ↦ record { event_id = ""; status = ""; code = "" }
    | some error ↦ reject e (stable_code error)
  ]

  pub chosen : ℕ → Event → Option EventResult → EventResult
  unfolding first_result
  chosen now e none = first_result now e
  chosen now e (some r) = r

  pub merge : ℕ → Dict String EventResult → List Event → List EventResult
  unfolding chosen
  merge now stored [] = []
  merge now stored (e ∷ es) = chosen now e (lookup e.event_id stored) ∷ merge now stored es

module _ {F W : Type 0} (x : Externals F W) (p : Payloads F)
    (equal_fold : String → String → Bool) where
  pub content_type_json : String → Bool
  unfolding before_semicolon
  content_type_json value = equal_fold (x.trim (before_semicolon value)) "application/json"

  -- The header has the prefix "Bearer ".
  pub authenticate : String → String → Statements F W Device
  authenticate d authorization =
      if starts_with authorization "Bearer "
      then authenticate_device x d (x.trim (slice authorization 7 (len authorization)))
      else or_fail none

  -- `StoreIngestBatch` has returned.
  pub respond :
      ℕ
      → Device
      → List Event
      → Option (List EventResult) × Database F W
      → Server F W
      → Response BatchResponse × Server F W
  unfolding merge by_id tally
  respond now device events (none, db) s = (http_error 503, record s { database = db })
  respond now device events (some stored, db) s =
      let row = Device.row device in
      (
        http_ok (record {
          config_revision = row.desired_config_revision;
          desired_config = row.desired_config;
          results = merge p now (by_id [] stored) events;
        }),
        tally stored (record s { database = db }),
      )

  pub ingest_events : ℕ → Device → List Event → Server F W → Response BatchResponse × Server F W
  unfolding respond valid_events invalid_count
  ingest_events now device events s =
      let counted : Server F W = record s { rejected = s.rejected + invalid_count p now events } in
      respond now device events
        (store_ingest_batch x (Device.id device) (valid_events p now events) now s.database) counted

  -- `authenticate` has returned.
  pub authorized :
      ℕ
      → List Event
      → Option Device × Database F W
      → Server F W
      → Response BatchResponse × Server F W
  unfolding ingest_events
  authorized now events (none, db) s = (http_error 401, record s { database = db })
  authorized now events (some device, db) s =
      ingest_events now device events (record s { database = db })

  pub handle_decoded : ℕ → String → Decoded → Server F W → Response BatchResponse × Server F W
  unfolding authorized authenticate
  handle_decoded now authorization (failed e) s = (http_error 400, s)
  handle_decoded now authorization (decoded batch) s =
      authorized now batch.events (authenticate batch.device_id authorization s.database) s

  pub handle_body :
      (List ℕ → Option Batch)
      → ℕ
      → String
      → Option (List ℕ)
      → Server F W
      → Response BatchResponse × Server F W
  unfolding handle_decoded
  handle_body decode now authorization none s = (http_error 413, s)
  handle_body decode now authorization (some body) s =
      handle_decoded now authorization (decode_batch decode body now) s

  unfoldable pub batches :
      (List ℕ → Option Batch) → ℕ → Request → Server F W → Response BatchResponse × Server F W
  unfolding content_type_json handle_body
  batches decode now request s =
      if not (str_eq request.method "POST")
      then (http_error 405, s)
      else if not (content_type_json request.content_type)
      then (http_error 415, s)
      else handle_body decode now request.authorization (limited max_request_bytes request.body) s
