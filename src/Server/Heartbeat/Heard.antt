-- ===== src/Server/Heartbeat/Heard.antt =====
-- What a heartbeat leaves in the central tables, and what it is answered
-- (`heartbeat` of internal/ingestserver/server.go).
use text.Mathlib.Text.{◌==◌ as str_eq}
use on_watch.Base.{
  ℕ, ◌≡◌, refl, Bool, true, false, not, inl, inr, Option, none, some, List, String, ◌==◌,
  if◌then◌else◌, lookup, lookup-insert_self, arith, Bool-cases, string_eq, ltb, length,
}
use on_watch.Ingest.Validation.{Payloads}
use on_watch.Collector.Heartbeat.{HeartbeatResponse}
use on_watch.Central.Tables.{DeviceRow, Tables, Database}
use on_watch.Central.Payload.{Externals}
use on_watch.Central.Storing.Laws.{Ensures, Ensures-imp, and_then-Ensures, exec-Ensures}
use on_watch.Central.Devices.{
  Device, DeviceHeartbeat, is_revoked, beaten, set_row, change_live, update_live, get_device,
  record_heartbeat, bare_config,
}
use on_watch.Central.Devices.Accepted.{get_device-Reads}
use on_watch.Central.Devices.Credentials.{Known}
use on_watch.Server.{Request, Response, http_error, http_ok, Server, limited, content_type_json}
use on_watch.Server.Exchange.{authenticate-Known}
use on_watch.Server.Heartbeat.{
  max_heartbeat_bytes, is_heartbeat, answer_heartbeat, authorized_heartbeat, handle_heartbeat,
  heartbeat_body, heartbeat,
}

module _ {F W : Type 0} (x : Externals F W) (p : Payloads F) (equal_fold : String → String → Bool)
    (now : ℕ) (h : DeviceHeartbeat) where
  -- The row of the device before, which is not revoked, and after.
  record Beaten (d : String) (before : Tables F W) (device : Device) (after : Tables F W)
      : Type 0 where
    pub old : DeviceRow
    pub there : lookup d before.devices ≡ some old
    pub live : is_revoked old ≡ false
    pub told : Device.row device ≡ beaten now h old
    pub kept : lookup d after.devices ≡ some (beaten now h old)

  Updated : String → Tables F W → Tables F W → Type 0
  Updated d s t =
      (old : DeviceRow) × (lookup d s.devices ≡ some old)
      × (is_revoked old ≡ false)
      × (lookup d t.devices ≡ some (beaten now h old))

  changed :
      (d : String) (found : Option DeviceRow) (s t : Tables F W)
      → lookup d s.devices ≡ found
      → change_live d (beaten now h) found s ≡ some t
      → Updated d s t
  unfolding Updated
  changed d none s t here made = absurd (cc)
  changed d (some old) s t here made = elim (Bool-cases (is_revoked old)) [
    | inl gone ↦ absurd (ground arith)
    | inr live ↦
        let same : set_row d (beaten now h old) s ≡ t = ground arith in
        (old, here, live, rw (← same) (lookup-insert_self d (beaten now h old) s.devices))
  ]

  record_heartbeat-Beaten :
      (d : String) (db : Database F W) → Ensures (Beaten d db.tables) (record_heartbeat d h now db)
  unfolding record_heartbeat Updated
  record_heartbeat-Beaten d db =
      and_then-Ensures (λ (u : Unit {0}) t. Updated d db.tables t) (Beaten d db.tables)
        (λ _. get_device d) (update_live d (beaten now h) db)
        (Ensures-imp _ (λ (u : Unit {0}) t. Updated d db.tables t) (update_live d (beaten now h) db)
          (exec-Ensures _ db)
          (λ u t made. changed d (lookup d db.tables.devices) db.tables t refl made))
        (λ u db1 (old, there, live, kept).
          Ensures-imp _ (Beaten d db.tables) (get_device d db1)
            (get_device-Reads x d (beaten now h old) db1 kept)
            (λ device t k. record {
              old = old;
              there = there;
              live = live;
              told = rw k.0 refl;
              kept = rw k.1 kept;
            }))

  -- What holds of the device where the handler answers with 200.
  pub Hears : Tables F W → Response HeartbeatResponse × Server F W → Type 0
  Hears before (http_error status, s) = Unit
  Hears before (http_ok response, s) =
      (old : DeviceRow) × (lookup h.device_id before.devices ≡ some old)
      × (is_revoked old ≡ false)
      × (lookup h.device_id s.database.tables.devices ≡ some (beaten now h old))
      × (response.config_revision ≡ old.desired_config_revision)
      × (response.desired_config ≡ (
          if h.config_revision == old.desired_config_revision
          then bare_config 0
          else old.desired_config))

  if-Hears :
      (before : Tables F W) (b : Bool) (r q : Response HeartbeatResponse × Server F W)
      → Hears before r
      → Hears before q
      → Hears before (if b then r else q)
  if-Hears before true r q on_true on_false = on_true
  if-Hears before false r q on_true on_false = on_false

  answer_heartbeat-Hears :
      (before : Tables F W) (r : Option Device × Database F W) (s : Server F W)
      → Ensures (Beaten h.device_id before) r
      → Hears before (answer_heartbeat x p equal_fold h r s)
  unfolding Hears answer_heartbeat
  answer_heartbeat-Hears before (none, db) s g = tt
  answer_heartbeat-Hears before (some device, db) s g =
      (g.old, g.there, g.live, g.kept, rw g.told refl, rw g.told refl)

  authorized_heartbeat-Hears :
      (before : Tables F W) (r : Option Device × Database F W) (s : Server F W)
      → Ensures (Known h.device_id before) r
      → Hears before (authorized_heartbeat x p equal_fold now h r s)
  unfolding Hears authorized_heartbeat
  authorized_heartbeat-Hears before (none, db) s g = tt
  authorized_heartbeat-Hears before (some device, db) s g =
      answer_heartbeat-Hears before _ (record s { database = db })
        (rw (g.0, ← g.1) (record_heartbeat-Beaten h.device_id db))

  handle_heartbeat-Hears :
      (authorization : String) (s : Server F W)
      → Hears s.database.tables (handle_heartbeat x p equal_fold now authorization (some h) s)
  unfolding handle_heartbeat Hears
  handle_heartbeat-Hears authorization s =
      if-Hears s.database.tables (is_heartbeat x p equal_fold h) _ (http_error 400, s)
        (authorized_heartbeat-Hears s.database.tables _ s
          (authenticate-Known x p equal_fold now h.device_id authorization s.database))
        tt

  heartbeat_body-Hears :
      (decode : List ℕ → Option DeviceHeartbeat) (authorization : String) (body : List ℕ)
      (s : Server F W)
      → decode body ≡ some h
      → Hears s.database.tables (
          heartbeat_body x p equal_fold decode now authorization
            (limited max_heartbeat_bytes (some body))
            s)
  unfolding heartbeat_body Hears
  heartbeat_body-Hears decode authorization body s read =
      elim (Bool-cases (ltb max_heartbeat_bytes (length body))) [
        | inl large ↦ rw large tt
        | inr fits ↦ rw (fits, read) (handle_heartbeat-Hears authorization s)
      ]

  -- Where the handler of a heartbeat answers with 200, the device was there and not revoked, its row
  -- has become what the heartbeat says, with the time, and the answer has the revision of its
  -- configuration, and the configuration where that of the heartbeat differs. The heartbeat is what
  -- the decoder reads from the body.
  pub heartbeat-Hears :
      (decode : List ℕ → Option DeviceHeartbeat) (request : Request) (body : List ℕ)
      (s : Server F W)
      → request.body ≡ some body
      → decode body ≡ some h
      → Hears s.database.tables (heartbeat x p equal_fold decode now request s)
  unfolding heartbeat Hears
  heartbeat-Hears decode request body s sent read =
      if-Hears s.database.tables (not (str_eq request.method "POST")) (http_error 405, s) _ tt
        (if-Hears s.database.tables (not (content_type_json x p equal_fold request.content_type))
          (http_error 415, s) _ tt
          (rw sent (heartbeat_body-Hears decode request.authorization body s read)))
