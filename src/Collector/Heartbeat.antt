-- ===== src/Collector/Heartbeat.antt =====
-- `heartbeatOnce` of internal/collector/runtime.go: it tells the server what waits, takes the
-- configuration, and ends the pause that a refused token led to. The exchange itself is the
-- parameter `reply`.
pub mod Pause
use on_watch.Base.{
  ℕ, ◌+◌, Bool, true, false, ◌&&◌, ◌||◌, Option, none, some, String, ltb, ◌==◌, if◌then◌else◌,
}
use on_watch.Ingest.Desired.{GoText, DesiredConfig, validate_desired_config}
use on_watch.Collector.Spool.{Codec, Spool, SpoolError}
use on_watch.Collector.Status.{SpoolStatus, status}
use on_watch.Collector.Upload.{Runtime, UploadError, local_failed, auth_pause, save_local_state}

pub record HeartbeatResponse : Type 0 where
  pub config_revision : ℕ
  pub desired_config : DesiredConfig

pub data HeartbeatReply : Type 0 where
  failed : ℕ → HeartbeatReply
  answered : HeartbeatResponse → HeartbeatReply

-- What is sent: the spool's status and the revision that is known. What is constant in a process,
-- such as its device and its version, is left out.
pub record Heartbeat : Type 0 where
  pub config_revision : ℕ
  pub queue_bytes : ℕ
  pub pending_events : ℕ
  pub oldest_queued_at : Option ℕ
  pub last_upload_at : Option ℕ

pub data HeartbeatError : Type 0 where
  status_failed : SpoolError → HeartbeatError
  heartbeat_failed invalid_desired : HeartbeatError
  unsaved : UploadError → HeartbeatError

abbrev pub saved_with : Option UploadError × Runtime → Option HeartbeatError × Runtime
saved_with (none, r) = (none, r)
saved_with (some e, r) = (some (unsaved e), r)

abbrev pub heartbeat_of : SpoolStatus → Runtime → Heartbeat
heartbeat_of s r = record {
  config_revision = r.revision;
  queue_bytes = s.queue_bytes;
  pending_events = s.pending_events;
  oldest_queued_at = s.oldest_queued_at;
  last_upload_at = s.last_upload_at;
}

-- A refused token; the error of the write is dropped.
pub pause : ℕ → ℕ → Runtime → Runtime
unfolding save_local_state
pause now code r =
    if code == 401 || code == 403
    then (save_local_state now
        (record r { auth_paused = true; auth_pause_until = now + auth_pause })).1
    else r

module _ (text : GoText) where
  -- The branch of an answer.
  pub adopt : ℕ → HeartbeatResponse → Runtime → Option HeartbeatError × Runtime
  unfolding save_local_state
  adopt now response r =
      let awake : Runtime = record r { auth_paused = false; auth_pause_until = 0 } in
      let told : Runtime = record awake {
        revision = response.config_revision;
        desired = response.desired_config;
      } in
      if response.config_revision == r.revision
      then saved_with (save_local_state now awake)
      else elim (validate_desired_config text response.desired_config) [
        | some e ↦ (some invalid_desired, awake)
        | none ↦
            if response.desired_config.revision == response.config_revision
            then saved_with (save_local_state now told)
            else (some invalid_desired, awake)
      ]

  pub hear : ℕ → HeartbeatReply → Runtime → Option HeartbeatError × Runtime
  unfolding pause adopt
  hear now (failed code) r = (some heartbeat_failed, pause now code r)
  hear now (answered response) r = adopt now response r

  module _ (reply : Heartbeat → HeartbeatReply) where
    pub beat :
        ℕ → (Option SpoolError × SpoolStatus) × Spool → Runtime → Option HeartbeatError × Runtime
    unfolding hear
    beat now ((some e, s), spool) r = (some (status_failed e), record r { spool = spool })
    beat now ((none, s), spool) r =
        let r' : Runtime = record r { spool = spool } in hear now (reply (heartbeat_of s r')) r'

    unfoldable pub heartbeat_once : Codec → ℕ → Runtime → Option HeartbeatError × Runtime
    unfolding beat status
    heartbeat_once codec now r =
        if r.auth_paused && ltb now r.auth_pause_until
        then (none, r)
        else beat now (status codec now r.spool) r
