-- ===== src/Server/Heartbeat.antt =====
-- The handler of a heartbeat (`heartbeat` of internal/ingestserver/server.go).
pub mod Heard
use Prim.Native.String.{len}
use text.Mathlib.Text.{◌==◌ as str_eq}
use on_watch.Base.{
  ℕ, suc, Bool, true, false, not, ◌&&◌, ◌||◌, Option, none, some, List, [], ◌∷◌, String, ltb, ◌==◌,
  if◌then◌else◌, length, string_eq,
}
use on_watch.Ingest.Decoding.{schema_version, validate_device_id}
use on_watch.Ingest.Validation.{Payloads}
use on_watch.Collector.Heartbeat.{HeartbeatResponse}
use on_watch.Central.Tables.{Database}
use on_watch.Central.Payload.{Externals}
use on_watch.Central.Devices.{Device, DeviceHeartbeat, record_heartbeat, bare_config}
use on_watch.Server.{
  Request, Response, http_error, http_ok, Server, limited, authenticate, content_type_json,
}

-- 64 << 10.
abbrev pub max_heartbeat_bytes : ℕ
max_heartbeat_bytes = 65536

module _ {F W : Type 0} (x : Externals F W) (p : Payloads F)
    (equal_fold : String → String → Bool) where
  abbrev pub are_capabilities : List String → Bool
  are_capabilities [] = true
  are_capabilities (c ∷ cs) = not (str_eq (x.trim c) "" || ltb 128 (len c)) && are_capabilities cs

  pub is_heartbeat : DeviceHeartbeat → Bool
  is_heartbeat h =
      h.schema_version == schema_version
      && elim (validate_device_id h.device_id) [ none ↦ true | some _ ↦ false ]
      && not (ltb 128 (len h.collector_version))
      && not (ltb 64 (len h.platform))
      && not (ltb 64 (length h.capabilities))
      && are_capabilities h.capabilities

  pub answer_heartbeat :
      DeviceHeartbeat
      → Option Device × Database F W
      → Server F W
      → Response HeartbeatResponse × Server F W
  answer_heartbeat h (none, db) s = (http_error 503, record s { database = db })
  answer_heartbeat h (some device, db) s =
      let row = Device.row device in
      (
        http_ok (record {
          config_revision = row.desired_config_revision;
          desired_config =
              if h.config_revision == row.desired_config_revision
              then bare_config 0
              else row.desired_config;
        }),
        record s { database = db; heartbeats = suc s.heartbeats },
      )

  pub authorized_heartbeat :
      ℕ
      → DeviceHeartbeat
      → Option Device × Database F W
      → Server F W
      → Response HeartbeatResponse × Server F W
  unfolding answer_heartbeat
  authorized_heartbeat now h (none, db) s = (http_error 401, record s { database = db })
  authorized_heartbeat now h (some device, db) s =
      answer_heartbeat h (record_heartbeat (Device.id device) h now db) (record s { database = db })

  -- `none` where the strict decoder fails or a second value follows.
  pub handle_heartbeat :
      ℕ → String → Option DeviceHeartbeat → Server F W → Response HeartbeatResponse × Server F W
  unfolding authorized_heartbeat authenticate is_heartbeat
  handle_heartbeat now authorization none s = (http_error 400, s)
  handle_heartbeat now authorization (some h) s =
      if is_heartbeat h
      then authorized_heartbeat now h
          (authenticate x p equal_fold h.device_id authorization s.database) s
      else (http_error 400, s)

  pub heartbeat_body :
      (List ℕ → Option DeviceHeartbeat)
      → ℕ
      → String
      → Option (List ℕ)
      → Server F W
      → Response HeartbeatResponse × Server F W
  unfolding handle_heartbeat
  heartbeat_body decode now authorization none s = (http_error 413, s)
  heartbeat_body decode now authorization (some body) s =
      handle_heartbeat now authorization (decode body) s

  unfoldable pub heartbeat :
      (List ℕ → Option DeviceHeartbeat)
      → ℕ
      → Request
      → Server F W
      → Response HeartbeatResponse × Server F W
  unfolding content_type_json heartbeat_body
  heartbeat decode now request s =
      if not (str_eq request.method "POST")
      then (http_error 405, s)
      else if not (content_type_json x p equal_fold request.content_type)
      then (http_error 415, s)
      else heartbeat_body decode now request.authorization
          (limited max_heartbeat_bytes request.body) s
