-- ===== src/Central/Owners.antt =====
-- Who polls an account: the server or a device (internal/store/central.go). A call that returns an
-- error gives `none`.
pub mod Exclusive
pub mod Owned
use text.Mathlib.Text.{◌==◌ as str_eq}
use on_watch.Base.{
  ℕ, ◌+◌, Bool, true, false, not, ◌&&◌, ◌||◌, Option, none, some, List, [], ◌∷◌, ◌++◌, map, String,
  if◌then◌else◌, lookup, insert, string_eq,
}
use on_watch.Ingest.Desired.{DesiredConfig, ProviderAssignment}
use on_watch.Central.Tables.{
  DeviceRow, Owner, server, device, PollOwnerRow, Tables, Statements, ◌>>=◌, ◌>>◌, pure, attempt,
  or_fail, put, query, exec, transaction,
}
use on_watch.Central.Rows.{active_owner}
use on_watch.Central.Devices.{is_revoked, set_row}
use on_watch.Central.Payload.{Externals, normalize_central_provider}

abbrev pub same_owner : Owner → Owner → Bool
same_owner server server = true
same_owner server (device b) = false
same_owner (device a) server = false
same_owner (device a) (device b) = str_eq a b

-- The owner that a kind and a device name; `none` for another kind.
abbrev pub owner_of : String → String → Option Owner
owner_of kind d =
    if str_eq kind "server"
    then some server
    else if str_eq kind "device"
    then some (device d)
    else none

-- `… WHERE provider = ? AND external_account_id = ? AND ended_at IS NULL`
abbrev pub is_active : String → String → PollOwnerRow → Bool
is_active provider account row = elim row.ended_at [
  | some _ ↦ false
  | none ↦ str_eq row.provider provider && str_eq row.external_account_id account
]

abbrev pub end_active : String → String → ℕ → PollOwnerRow → PollOwnerRow
end_active provider account now row =
    if is_active provider account row then record row { ended_at = some now } else row

abbrev pub is_server : Option Owner → Bool
is_server none = false
is_server (some server) = true
is_server (some (device d)) = false

-- Whether the server owns an account of the provider.
abbrev pub has_server : String → List PollOwnerRow → Bool
has_server provider [] = false
has_server provider (row ∷ rows) =
    (str_eq row.provider provider
      && is_active provider row.external_account_id row
      && is_server (some row.owner))
    || has_server provider rows

module _ {F W : Type 0} (x : Externals F W) where
  -- Whether a device may own: it is there and not revoked.
  abbrev pub is_live : Option DeviceRow → Bool
  is_live none = false
  is_live (some row) = not (is_revoked row)

  abbrev pub may_own : Owner → Statements F W Bool
  may_own server = pure true
  may_own (device d) = query (λ t. is_live (lookup d t.devices))

  abbrev pub new_owner : String → String → Owner → ℕ → PollOwnerRow
  new_owner provider account owner now = record {
    provider = provider;
    external_account_id = account;
    owner = owner;
    effective_at = now;
    ended_at = none;
  }

  abbrev pub insert_owner : PollOwnerRow → Tables F W → Option (Tables F W)
  insert_owner row t = elim (active_owner row.provider row.external_account_id t.owners) [
    | some _ ↦ none
    | none ↦ some (record t { owners = t.owners ++ row ∷ [] })
  ]

  unfoldable pub add_owner : String → String → Owner → ℕ → Statements F W (Unit {0})
  unfolding active_owner
  add_owner provider account owner now = do
    allowed ← may_own owner
    (if allowed then exec (insert_owner (new_owner provider account owner now)) else or_fail none)

  -- The active owner of the account has been read.
  unfoldable pub assign : String → String → Owner → ℕ → Option Owner → Statements F W (Unit {0})
  unfolding add_owner
  assign provider account owner now none = add_owner provider account owner now
  assign provider account owner now (some active) =
      or_fail (if same_owner active owner then some tt else none)

  unfoldable pub set_owner : String → String → Owner → ℕ → Statements F W (Unit {0})
  unfolding assign active_owner
  set_owner provider account owner now = transaction do
    active ← query (λ t. active_owner provider account t.owners)
    assign provider account owner now active

  abbrev pub set_known : String → String → ℕ → Option Owner → Statements F W (Unit {0})
  set_known provider account now none = or_fail none
  set_known provider account now (some owner) = set_owner provider account owner now

  unfoldable pub set_poll_owner : String → String → String → String → ℕ → Statements F W (Unit {0})
  unfolding set_owner normalize_central_provider
  set_poll_owner provider external_id kind d now =
      let name = normalize_central_provider x provider in
      let account = x.trim external_id in
      if str_eq name "" || str_eq account ""
      then or_fail none
      else set_known name account now (owner_of kind d)

  -- These two answer no where the query fails.
  unfoldable pub is_server_poll_owner : String → String → Tables F W → Bool
  unfolding active_owner normalize_central_provider
  is_server_poll_owner provider external_id t =
      is_server (active_owner (normalize_central_provider x provider) (x.trim external_id) t.owners)

  unfoldable pub has_server_poll_owner : String → Tables F W → Bool
  unfolding normalize_central_provider
  has_server_poll_owner provider t = has_server (normalize_central_provider x provider) t.owners

  -- The assignments but for this account.
  abbrev pub without_account : String → String → List ProviderAssignment → List ProviderAssignment
  without_account provider account [] = []
  without_account provider account (a ∷ rest) =
      let kept = without_account provider account rest in
      if str_eq (normalize_central_provider x a.provider) provider && str_eq a.external_id account
      then kept
      else a ∷ kept

  abbrev pub unassign : String → String → DeviceRow → DeviceRow
  unassign provider account row =
      let config = row.desired_config in
      record row {
        desired_config_revision = row.desired_config_revision + 1;
        desired_config = record config {
          revision = row.desired_config_revision + 1;
          assignments = without_account provider account config.assignments;
        };
      }

  abbrev pub forget_row : String → String → String → Option DeviceRow → Statements F W (Unit {0})
  forget_row provider account d none = or_fail none
  forget_row provider account d (some row) =
      exec λ t. some (set_row d (unassign provider account row) t)

  -- The configuration of a device loses the account.
  unfoldable pub forget : String → String → Owner → Statements F W (Unit {0})
  unfolding normalize_central_provider
  forget provider account server = pure tt
  forget provider account (device d) = do
    row ← query (λ t. lookup d t.devices)
    forget_row provider account d row

  unfoldable pub release : String → String → ℕ → Option Owner → Statements F W (Unit {0})
  unfolding forget
  release provider account now none = or_fail none
  release provider account now (some owner) =
      exec (λ t. some (record t { owners = map (end_active provider account now) t.owners }))
      >> forget provider account owner

  unfoldable pub clear_poll_owner : String → String → ℕ → Statements F W (Unit {0})
  unfolding release active_owner normalize_central_provider
  clear_poll_owner provider external_id now = transaction do
    let name = normalize_central_provider x provider
    let account = x.trim external_id
    owner ← query (λ t. active_owner name account t.owners)
    release name account now owner
