-- ===== src/Central/Devices.antt =====
-- The devices and their tokens (internal/store/central.go). A call that returns an error gives
-- `none`; what `GenerateDeviceCredential` returns is an argument, `none` where it fails. A token is
-- stored as the hex text of its SHA-256.
pub mod Credentials
pub mod Owned
pub mod Refused
pub mod Accepted
use mathlib.Core.Option
use Prim.Native.String.{len}
use text.Mathlib.Text.{◌==◌ as str_eq}
use on_watch.Base.{
  ℕ, ◌+◌, Bool, true, false, not, ◌||◌, Option, none, some, List, [], ◌∷◌, map, String, ltb,
  if◌then◌else◌, Dict, lookup, insert, string_eq,
}
use on_watch.Ingest.Decoding.{DecodeError, validate_device_id}
use on_watch.Ingest.Desired.{GoText, DesiredConfig, ConfigError, validate_desired_config}
use on_watch.Central.Tables.{
  DeviceRow, Owner, server, device, PollOwnerRow, Tables, Statements, ◌>>=◌, ◌>>◌, pure, attempt,
  or_fail, put, query, exec, transaction,
}
use on_watch.Central.Payload.{Externals}

-- A device with its identifier; the digest of its token is not handed on.
pub record Device : Type 0 where
  pub id : String
  pub row : DeviceRow

abbrev pub bare_config : ℕ → DesiredConfig
bare_config revision = record {
  revision = revision;
  assignments = [];
  sources = [];
  collection_interval = "";
  upload_interval = "";
}

abbrev pub new_device : String → String → String → ℕ → DeviceRow
new_device name digest platform now = record {
  name = name;
  token_digest = digest;
  platform = platform;
  collector_version = "";
  created_at = now;
  rotated_at = none;
  revoked_at = none;
  last_heartbeat_at = none;
  last_accepted_event_at = none;
  queue_bytes = 0;
  pending_events = 0;
  oldest_queued_at = none;
  last_upload_at = none;
  desired_config_revision = 0;
  desired_config = bare_config 0;
}

abbrev pub is_revoked : DeviceRow → Bool
is_revoked row = elim row.revoked_at [ none ↦ false | some _ ↦ true ]

-- What the server is told by a heartbeat.
pub record DeviceHeartbeat : Type 0 where
  pub schema_version : ℕ
  pub device_id : String
  pub collector_version : String
  pub platform : String
  pub config_revision : ℕ
  pub queue_bytes : ℕ
  pub pending_events : ℕ
  pub oldest_queued_at : Option ℕ
  pub last_upload_at : Option ℕ
  pub capabilities : List String

abbrev pub beaten : ℕ → DeviceHeartbeat → DeviceRow → DeviceRow
beaten now h row = record row {
  platform = h.platform;
  collector_version = h.collector_version;
  last_heartbeat_at = some now;
  queue_bytes = h.queue_bytes;
  pending_events = h.pending_events;
  oldest_queued_at = h.oldest_queued_at;
  last_upload_at = h.last_upload_at;
}

-- `UPDATE provider_poll_owners SET ended_at = ? WHERE device_id = ? AND ended_at IS NULL`
abbrev pub is_held_by : String → PollOwnerRow → Bool
is_held_by d row = elim row.ended_at [
  | some _ ↦ false
  | none ↦ elim row.owner [ server ↦ false | device other ↦ str_eq other d ]
]

abbrev pub end_row : String → ℕ → PollOwnerRow → PollOwnerRow
end_row d now row = if is_held_by d row then record row { ended_at = some now } else row

abbrev pub revoked : ℕ → DeviceRow → DeviceRow
revoked now row = record row {
  revoked_at = some now;
  desired_config_revision = row.desired_config_revision + 1;
  desired_config = bare_config (row.desired_config_revision + 1);
}

module _ {F W : Type 0} where
  abbrev pub set_row : String → DeviceRow → Tables F W → Tables F W
  set_row d row t = record t { devices = insert d row t.devices }

  -- `UPDATE devices SET … WHERE device_id = ? AND revoked_at IS NULL`, an error where no row is.
  abbrev pub change_live :
      String → (DeviceRow → DeviceRow) → Option DeviceRow → Tables F W → Option (Tables F W)
  change_live d change none t = none
  change_live d change (some row) t =
      if is_revoked row then none else some (set_row d (change row) t)

  abbrev pub update_live : String → (DeviceRow → DeviceRow) → Statements F W (Unit {0})
  update_live d change = exec λ t. change_live d change (lookup d t.devices) t

  -- The same where a revoked device counts too, and the insertion of a new row.
  abbrev pub change_any :
      String → (DeviceRow → DeviceRow) → Option DeviceRow → Tables F W → Option (Tables F W)
  change_any d change none t = none
  change_any d change (some row) t = some (set_row d (change row) t)

  abbrev pub update_any : String → (DeviceRow → DeviceRow) → Statements F W (Unit {0})
  update_any d change = exec λ t. change_any d change (lookup d t.devices) t

  abbrev pub add_row : String → DeviceRow → Option DeviceRow → Tables F W → Option (Tables F W)
  add_row d new (some row) t = none
  add_row d new none t = some (set_row d new t)

  unfoldable pub get_device : String → Statements F W Device
  get_device d = do
    row ← query (λ t. lookup d t.devices)
    or_fail (Option.map (λ r. record { id = d; row = r }) row)

  -- The update has changed the row of a device that was not revoked, or there was none.
  unfoldable pub end_ownership : String → ℕ → Bool → Statements F W (Unit {0})
  end_ownership d now true = exec λ t. some (record t { owners = map (end_row d now) t.owners })
  end_ownership d now false = do
    row ← query (λ t. lookup d t.devices)
    or_fail (Option.map (λ r. tt) row)

  abbrev pub mark_row : String → ℕ → Tables F W → Option DeviceRow → Statements F W Bool
  mark_row d now t none = pure false
  mark_row d now t (some row) =
      if is_revoked row then pure false else put (set_row d (revoked now row) t) >> pure true

  -- Whether the update of `RevokeDevice` finds its row.
  unfoldable pub mark_revoked : String → ℕ → Statements F W Bool
  mark_revoked d now = do t ← query (λ t. t); mark_row d now t (lookup d t.devices)

  unfoldable pub revoke_device : String → ℕ → Statements F W (Unit {0})
  unfolding end_ownership mark_revoked
  revoke_device d now = transaction (mark_revoked d now >>= end_ownership d now)

  unfoldable pub record_heartbeat : String → DeviceHeartbeat → ℕ → Statements F W Device
  unfolding get_device
  record_heartbeat d h now = update_live d (beaten now h) >> get_device d

  unfoldable pub set_config : String → DesiredConfig → Statements F W (Unit {0})
  unfolding get_device
  set_config d config = do
    current ← get_device d
    let next = Device.row current
    let revision = next.desired_config_revision + 1
    update_any d (λ row. record row {
      desired_config_revision = revision;
      desired_config = record config { revision = revision };
    })

  abbrev pub set_valid : String → DesiredConfig → Option ConfigError → Statements F W (Unit {0})
  set_valid d config (some e) = or_fail none
  set_valid d config none = set_config d config

  unfoldable pub set_device_desired_config :
      GoText → String → DesiredConfig → Statements F W (Unit {0})
  unfolding set_config
  set_device_desired_config text d config = set_valid d config (validate_desired_config text config)

  module _ (x : Externals F W) where
    -- The row is there with this token and is not revoked.
    pub is_credential : String → Option DeviceRow → Bool
    is_credential token none = false
    is_credential token (some row) =
        if str_eq row.token_digest (x.hash token) then not (is_revoked row) else false

    pub check_credential : String → String → Statements F W Device
    unfolding is_credential get_device
    check_credential d token = do
      row ← query (λ t. lookup d t.devices)
      (if is_credential token row then get_device d else or_fail none)

    pub check_valid : String → String → Option DecodeError → Statements F W Device
    unfolding check_credential
    check_valid d token (some e) = or_fail none
    check_valid d token none =
        if str_eq (x.trim token) "" then or_fail none else check_credential d token

    unfoldable pub authenticate_device : String → String → Statements F W Device
    unfolding check_valid
    authenticate_device d token = check_valid d token (validate_device_id d)

    unfoldable pub insert_device :
        String → String → String → String → ℕ → Statements F W (Device × String)
    unfolding get_device
    insert_device name platform d token now = do
      let row = new_device name (x.hash token) (x.trim platform) now
      exec λ t. add_row d row (lookup d t.devices) t
      found ← get_device d
      pure (found, token)

    unfoldable pub with_credential :
        String → String → ℕ → Option (String × String) → Statements F W (Device × String)
    unfolding insert_device
    with_credential name platform now none = or_fail none
    with_credential name platform now (some (d, token)) = insert_device name platform d token now

    unfoldable pub create_device :
        String → String → Option (String × String) → ℕ → Statements F W (Device × String)
    unfolding with_credential
    create_device name platform credential now =
        if str_eq (x.trim name) "" || ltb 128 (len (x.trim name))
        then or_fail none
        else with_credential (x.trim name) platform now credential

    unfoldable pub rotate_with : String → ℕ → Option String → Statements F W String
    rotate_with d now none = or_fail none
    rotate_with d now (some token) =
        update_live d (λ row. record row { token_digest = x.hash token; rotated_at = some now })
        >> pure token

    abbrev pub rotate_valid :
        String → ℕ → Option String → Option DecodeError → Statements F W String
    rotate_valid d now token (some e) = or_fail none
    rotate_valid d now token none = rotate_with d now token

    unfoldable pub rotate_device_token : String → Option String → ℕ → Statements F W String
    unfolding rotate_with
    rotate_device_token d token now = rotate_valid d now token (validate_device_id d)
