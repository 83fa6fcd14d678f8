-- ===== src/Collector/Upload.antt =====
-- `uploadOnce` of internal/collector/runtime.go and `retryDelay` of internal/collector/client.go:
-- a batch of the spool goes to the server, and what the server answers is acknowledged. The
-- exchange itself is the parameter `reply`. Writes of the quarantine and of `collector-state.json`
-- may fail, as those of the spool.
pub mod Delivery
pub mod Draining
pub mod Requests
pub mod Refusal
use on_watch.Base.{
  ℕ, ◌+◌, ◌*◌, ◌^◌, Bool, true, false, not, ◌||◌, Option, none, some, List, [], ◌∷◌, ◌++◌, map,
  String, ltb, leb, ◌==◌, if◌then◌else◌, length, string_eq,
}
use on_watch.Ingest.{Event, EventResult, Batch}
use on_watch.Ingest.Decoding.{schema_version}
use on_watch.Ingest.Desired.{GoText, DesiredConfig, validate_desired_config}
use on_watch.Collector.Spool.{
  Codec, Spool, SpoolError, SpoolRecord, batch, ack, set_error, next_fails, other_faults,
}

-- What `Upload` sends: the current schema, and the time.
abbrev pub request : String → String → ℕ → ℕ → List Event → Batch
request device version revision now events = record {
  schema_version = schema_version;
  device_id = device;
  collector_version = version;
  config_revision = revision;
  sent_at = now;
  events = events;
}

pub record BatchResponse : Type 0 where
  pub config_revision : ℕ
  pub desired_config : DesiredConfig
  pub results : List EventResult

-- What `Upload` returns: an error with the HTTP status, or the decoded answer.
pub data Reply : Type 0 where
  failed : ℕ → String → Reply
  answered : BatchResponse → Reply

-- The part of `collector-state.json` that uploads change; a pause that is over is not written.
pub record LocalState : Type 0 where
  pub config_revision : ℕ
  pub desired_config : DesiredConfig
  pub auth_paused : Bool
  pub auth_pause_until : Option ℕ

-- `quarantined` is `quarantine.jsonl`, the last record first. `faults` are its writes and those of
-- the local state. The zero time is 0.
pub record Runtime : Type 0 where
  pub spool : Spool
  pub batch_size : ℕ
  pub revision : ℕ
  pub desired : DesiredConfig
  pub auth_paused : Bool
  pub auth_pause_until : ℕ
  pub retry_until : ℕ
  pub retry_attempt : ℕ
  pub quarantined : List (Event × EventResult)
  pub local : LocalState
  pub faults : List Bool

pub data UploadError : Type 0 where
  batch_failed upload_failed count_mismatch order_mismatch invalid_status quarantine_failed
        invalid_config local_failed :
      UploadError
  ack_failed : SpoolError → UploadError

-- `ingest.MaxRequestBytes-4096`.
abbrev pub max_upload_bytes : ℕ
max_upload_bytes = 2093056

-- Five and fifteen minutes.
abbrev pub max_delay : ℕ
max_delay = 300000000000

abbrev pub auth_pause : ℕ
auth_pause = 900000000000

abbrev pub least : ℕ → ℕ → ℕ
least a b = if ltb a b then a else b

-- `scale` is the product with the random factor between 0.8 and 1.2, in float64.
unfoldable pub retry_delay : (ℕ → ℕ) → ℕ → ℕ
retry_delay scale attempt =
    let whole = 1000000000 * 2 ^ least attempt 9 in
    let capped = if ltb max_delay whole then max_delay else whole in
    let jittered = scale capped in if ltb max_delay jittered then max_delay else jittered

abbrev pub local_of : ℕ → Runtime → LocalState
local_of now r = record {
  config_revision = r.revision;
  desired_config = r.desired;
  auth_paused = r.auth_paused;
  auth_pause_until =
      if r.auth_paused
      then (if ltb now r.auth_pause_until then some r.auth_pause_until else none)
      else none;
}

unfoldable pub save_local_state : ℕ → Runtime → Option UploadError × Runtime
save_local_state now r =
    let r' : Runtime = record r { faults = other_faults r.faults } in
    if next_fails r.faults
    then (some local_failed, r')
    else (none, record r' { local = local_of now r })

abbrev pub is_settled : String → Bool
is_settled status =
    string_eq.beq status "accepted"
    || string_eq.beq status "duplicate"
    || string_eq.beq status "enriched"

-- The loop over the results. A write of the quarantine whose `Sync` fails leaves the record there.
pub settle : List SpoolRecord → List EventResult → Runtime → Option UploadError × Runtime
settle [] results r = (none, r)
settle (record' ∷ records) [] r = (none, r)
settle (record' ∷ records) (result ∷ results) r =
    let noted : Runtime = record r {
      faults = other_faults (other_faults r.faults);
      quarantined = (record'.event, result) ∷ r.quarantined;
    } in
    let rest = settle records results r in
    let rest_noted = settle records results noted in
    if not (string_eq.beq result.event_id record'.event.event_id)
    then (some order_mismatch, r)
    else if is_settled result.status
    then rest
    else if not (string_eq.beq result.status "rejected")
    then (some invalid_status, r)
    else if next_fails r.faults
    then (some quarantine_failed, record r { faults = other_faults r.faults })
    else if next_fails (other_faults r.faults)
    then (some quarantine_failed, noted)
    else rest_noted

-- The pause or the wait that an error of `Upload` leads to.
pub delay_upload : (ℕ → ℕ) → ℕ → ℕ → Runtime → Runtime
unfolding retry_delay
delay_upload scale now status r =
    if status == 401 || status == 403
    then record r { auth_paused = true; auth_pause_until = now + auth_pause; retry_attempt = 0 }
    else record r {
      retry_attempt = r.retry_attempt + 1;
      retry_until = now + retry_delay scale r.retry_attempt;
    }

abbrev pub mark_error : String → Runtime → Runtime
mark_error message r = record r { spool = (set_error message r.spool).1 }

-- The branch of an error of `Upload`. The errors of the two writes are dropped.
unfoldable pub upload_fails : (ℕ → ℕ) → ℕ → ℕ → String → Runtime → Option UploadError × Runtime
unfolding delay_upload save_local_state
upload_fails scale now status message r =
    let (error, r') = save_local_state now (mark_error message (delay_upload scale now status r)) in
    (some upload_failed, r')

module _ (text : GoText) where
  -- What follows `Ack`.
  pub finish :
      ℕ → BatchResponse → Option SpoolError × Spool → Runtime → Option UploadError × Runtime
  unfolding save_local_state
  finish now response (some e, spool) r = (some (ack_failed e), record r { spool = spool })
  finish now response (none, spool) r =
      let r' : Runtime = record r { spool = spool } in
      let told : Runtime =
        if response.config_revision == r.revision
        then r'
        else record r' { revision = response.config_revision; desired = response.desired_config } in
      let settled = save_local_state now (record told { retry_attempt = 0; retry_until = 0 }) in
      if response.config_revision == r.revision
      then settled
      else elim (validate_desired_config text response.desired_config) [
        | some e ↦ (some invalid_config, r')
        | none ↦
            if response.desired_config.revision == response.config_revision
            then settled
            else (some invalid_config, r')
      ]

  -- The loop has ended: with an error, or the records are acknowledged.
  pub acknowledge :
      ℕ
      → List SpoolRecord
      → BatchResponse
      → Option UploadError × Runtime
      → Option UploadError × Runtime
  unfolding finish
  acknowledge now records response (some e, r) = (some e, r)
  acknowledge now records response (none, r) = finish now response (ack records now r.spool) r

  module _ (codec : Codec) (scale : ℕ → ℕ) (reply : List Event → ℕ → Reply) where
    -- A batch that is not empty, and its answer.
    pub deliver : ℕ → List SpoolRecord → Reply → Runtime → Option UploadError × Runtime
    unfolding upload_fails acknowledge settle
    deliver now records (failed status message) r = upload_fails scale now status message r
    deliver now records (answered response) r =
        if length response.results == length records
        then acknowledge now records response (settle records response.results r)
        else (some count_mismatch, r)

    -- Where a batch is read.
    pub send : ℕ → Option (List SpoolRecord) → Runtime → Option UploadError × Runtime
    unfolding deliver
    send now none r = (some batch_failed, r)
    send now (some []) r = (none, r)
    send now (some (first ∷ others)) r =
        let records = first ∷ others in
        deliver now records (reply (map (λ r. SpoolRecord.event r) records) r.revision) r

    unfoldable pub upload_once : ℕ → Runtime → Option UploadError × Runtime
    unfolding send
    upload_once now r =
        if r.auth_paused || ltb now r.retry_until
        then (none, r)
        else send now (batch codec r.batch_size max_upload_bytes r.spool) r
