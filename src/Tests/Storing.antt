-- ===== src/Tests/Storing.antt =====
-- Concrete batches at the central tables and the ingest server, and the theorems at such batches.
use Prim.Native.String.{◌++◌ as ◌<>◌}
use on_watch.Base.{ℕ, ◌≡◌, refl, true, Option, none, some, List, [], ◌∷◌, map, String, string_eq}
use on_watch.Ingest.{Event, EventResult, Batch}
use on_watch.Ingest.Decoding.{validate_device_id}
use on_watch.Ingest.Validation.{Payloads}
use on_watch.Collector.Upload.{request}
use on_watch.Central.Tables.{UsageEvent, Metadata, device, attempt, Database}
use on_watch.Central.Payload.{Externals}
use on_watch.Central.Storing.{store_ingest_batch}
use on_watch.Central.Storing.Laws.{Closes}
use on_watch.Central.Storing.Batches.{
  Distinct, no_duplicate-Distinct, Takes, store_ingest_batch-Closes,
}
use on_watch.Central.Storing.Replay.{duplicate, store_ingest_batch_again}
use on_watch.Central.Devices.{
  DeviceHeartbeat, Device, new_device, revoke_device, create_device, authenticate_device,
}
use on_watch.Central.Devices.Accepted.{create_device-authenticate}
use on_watch.Central.Storing.Blocked.{store_ingest_batch_refused}
use on_watch.Central.Rows.{active_owner, is_owned_by}
use on_watch.Central.Payload.{normalize_central_provider}
use on_watch.Ingest.Validation.{QuotaSnapshot}
use on_watch.Central.Owners.Exclusive.{IsOwned}
use on_watch.Central.Calls.{
  Call, create, rotate, assign_owner, revoke, store, run_all, run_all-IsOwned, revoked-refused,
}
use on_watch.Server.{Server, Request, batches}
use on_watch.Server.Heartbeat.{heartbeat}
use on_watch.Server.Heartbeat.Heard.{Hears, heartbeat-Hears}
use on_watch.Server.Exchange.{Serves, batches-Serves}
use on_watch.Server.Delivered.{Identity}
use on_watch.Tests.Collecting.{event_a, event_b, plain_text}

abbrev pub laptop : String
laptop = "dev_00000000000000000000000000000000"

abbrev one_request : UsageEvent ℕ
one_request = record {
  timestamp = 1;
  integration = "Claude Code";
  provider = "anthropic";
  account = "home";
  model = "opus";
  request_id = "1";
  prompt_tokens = 10;
  completion_tokens = 20;
  total_tokens = 30;
  cost_usd = none;
  latency_ms = none;
  metadata_json = "";
  source_path = "device";
  fingerprint = "f";
}

abbrev no_metadata : Metadata
no_metadata = record {
  stored = "";
  session_id = "";
  reasoning_effort = "unknown";
  mode = "unknown";
  speed_mode = "unknown";
  input_tokens = none;
  cached_input_tokens = none;
  cache_creation_input_tokens = none;
  output_tokens = none;
  reasoning_output_tokens = none;
}

abbrev pub externals : Externals ℕ (Unit {0})
externals = record {
  trim = λ s. s;
  lower = λ s. s;
  parse = λ s. none;
  marshal = λ v. "";
  hash = λ s. s;
  identity = λ kind time provider account. kind <> provider <> account;
  parse_usage = λ payload source. some one_request;
  metadata = λ e. no_metadata;
  snapshot = λ s. none;
  telemetry = λ e w. some w;
  mirror = λ provider account time s w. some w;
}

abbrev pub central : Database ℕ (Unit {0})
central = record {
  tables = record {
    devices = (laptop, new_device "laptop" "secret" "linux" 0) ∷ [];
    receipts = [];
    provenance = [];
    owners = [];
    usage = [];
    last_usage_id = 0;
    compacted = [];
    snapshots = [];
    last_snapshot_id = 0;
    other = tt;
  };
  faults = [];
}

abbrev both : List Event
both = event_a ∷ event_b ∷ []

both-Distinct : Distinct both
both-Distinct = no_duplicate-Distinct both refl

-- The second event has the fingerprint of the first.
abbrev both_results : List EventResult
both_results =
    record { event_id = "evt_a"; status = "accepted"; code = "" }
    ∷ record { event_id = "evt_b"; status = "duplicate"; code = "" }
    ∷ []

stored : Database ℕ (Unit {0})
stored = (store_ingest_batch externals laptop both 5 central).1

both_stored : store_ingest_batch externals laptop both 5 central ≡ (some both_results, stored)
unfolding store_ingest_batch stored
both_stored = refl

store_ingest_batch-Closes_example :
    Closes
      (Takes externals laptop both central.tables)
      central.tables
      (store_ingest_batch externals laptop both 5 central)
store_ingest_batch-Closes_example =
    store_ingest_batch-Closes externals laptop both 5 central both-Distinct

stored-faults : stored.faults ≡ []
unfolding store_ingest_batch stored
stored-faults = refl

store_ingest_batch_again_example :
    store_ingest_batch externals laptop both 9 stored ≡ (some (map duplicate both), stored)
store_ingest_batch_again_example =
    store_ingest_batch_again externals laptop both both_results 5 9 central stored both-Distinct
      both_stored (refl, (refl, tt)) stored-faults

abbrev pub decoders : Payloads ℕ
decoders = record {
  trim = λ s. s;
  lower = λ s. s;
  marshal_size = λ e. some 200;
  parse = λ s. none;
  snapshot = λ s. none;
  is_finite = λ n. true;
}

abbrev pub server : Server ℕ (Unit {0})
server = record { database = central; accepted = 0; duplicates = 0; rejected = 0; heartbeats = 0 }

abbrev pub me : Identity
me = record { device_id = laptop; token = "secret"; version = "1" }

-- A batch of one, and a decoder that reads no other.
abbrev sent_batch : Batch
sent_batch = request laptop "1" 0 6 (event_a ∷ [])

abbrev decode : List ℕ → Option Batch
decode [] = none
decode (b ∷ bs) = some sent_batch

abbrev posted : Request
posted = record {
  method = "POST";
  content_type = "application/json";
  authorization = "Bearer secret";
  body = some (1 ∷ []);
}

batches-Serves_example :
    Serves externals decoders
      (λ s t. string_eq.beq s t)
      7
      laptop
      (event_a ∷ [])
      (batches externals decoders (λ s t. string_eq.beq s t) decode 7 posted server)
batches-Serves_example =
    batches-Serves externals decoders (λ s t. string_eq.beq s t) 7 decode posted (1 ∷ []) sent_batch
      server refl refl

nobody_owns : IsOwned central.tables
nobody_owns = record { exclusive = tt; live = tt }

-- The device gets an account, sends a batch and is revoked; the second owner is refused.
abbrev calls : List Call
calls =
    assign_owner "openai" "home" "device" laptop 1
    ∷ assign_owner "openai" "home" "server" "" 2
    ∷ store laptop both 5
    ∷ revoke laptop 6
    ∷ assign_owner "openai" "home" "server" "" 7
    ∷ []

run_all-IsOwned_example : IsOwned (run_all externals plain_text calls central).tables
run_all-IsOwned_example = run_all-IsOwned externals plain_text calls central nobody_owns

revoked_laptop : Database ℕ (Unit {0})
revoked_laptop = (revoke_device laptop 6 central).1

revoke_laptop : revoke_device laptop 6 central ≡ (some tt, revoked_laptop)
unfolding revoke_device revoked_laptop attempt
revoke_laptop = refl

-- A new token and an account are refused to it, and no old token is accepted.
abbrev later_calls : List Call
later_calls =
    rotate laptop (some "other") 7
    ∷ assign_owner "openai" "home" "device" laptop 8
    ∷ create "laptop" "linux" (some (laptop, "secret")) 9
    ∷ []

revoked-refused_example :
    (authenticate_device externals laptop "secret"
      (run_all externals plain_text later_calls revoked_laptop)).0
    ≡ none
revoked-refused_example =
    revoked-refused externals plain_text laptop "secret" 6 later_calls central revoked_laptop
      revoke_laptop

abbrev desk : String
desk = "dev_11111111111111111111111111111111"

abbrev desk_device : Device
desk_device = record { id = desk; row = new_device "desk" "t" "linux" 3 }

with_desk : Database ℕ (Unit {0})
with_desk = (create_device externals "desk" "linux" (some (desk, "t")) 3 central).1

create_desk :
    create_device externals "desk" "linux" (some (desk, "t")) 3 central
    ≡ (some (desk_device, "t"), with_desk)
unfolding create_device with_desk attempt
create_desk = refl

with_desk-faults : with_desk.faults ≡ []
unfolding create_device with_desk attempt
with_desk-faults = refl

create_device-authenticate_example :
    authenticate_device externals desk "t" with_desk ≡ (some desk_device, with_desk)
unfolding validate_device_id
create_device-authenticate_example =
    create_device-authenticate externals "desk" "linux" desk "t" "t" 3 desk_device central with_desk
      create_desk refl refl with_desk-faults

abbrev no_metrics : QuotaSnapshot ℕ
no_metrics = record { plan = "pro"; version = 1; metrics = [] }

-- The mirror of the provider takes no snapshot without its metrics.
abbrev strict : Externals ℕ (Unit {0})
strict = record externals {
  snapshot = λ s. some no_metrics;
  mirror = λ provider account time s w. none;
}

abbrev quota_event : Event
quota_event = record event_a { kind = "quota_snapshot"; provider = "zai" }

abbrev owning : Database ℕ (Unit {0})
owning =
    let t = central.tables in
    record central {
      tables = record t {
        owners =
            record {
              provider = "zai";
              external_account_id = quota_event.account.external_id;
              owner = device laptop;
              effective_at = 1;
              ended_at = none;
            }
            ∷ [];
      };
    }

owns :
    is_owned_by laptop (
      active_owner
        (normalize_central_provider strict quota_event.provider)
        quota_event.account.external_id
        owning.tables.owners)
    ≡ true
unfolding active_owner normalize_central_provider
owns = refl

store_ingest_batch_refused_example :
    ((store_ingest_batch strict laptop (quota_event ∷ event_b ∷ []) 5 owning).0 ≡ none)
    × ((store_ingest_batch strict laptop (quota_event ∷ event_b ∷ []) 5 owning).1.tables
        ≡ owning.tables)
store_ingest_batch_refused_example =
    store_ingest_batch_refused strict laptop 5 quota_event no_metrics (λ w. refl) (event_b ∷ [])
      owning refl refl owns refl

abbrev a_heartbeat : DeviceHeartbeat
a_heartbeat = record {
  schema_version = 1;
  device_id = laptop;
  collector_version = "1";
  platform = "linux";
  config_revision = 0;
  queue_bytes = 12;
  pending_events = 2;
  oldest_queued_at = some 1;
  last_upload_at = none;
  capabilities = [];
}

heartbeat-Hears_example :
    Hears externals decoders
      (λ s t. string_eq.beq s t)
      7
      a_heartbeat
      central.tables
      (heartbeat externals decoders
        (λ s t. string_eq.beq s t)
        (λ bytes. some a_heartbeat)
        7
        posted
        server)
heartbeat-Hears_example =
    heartbeat-Hears externals decoders (λ s t. string_eq.beq s t) 7 a_heartbeat
      (λ bytes. some a_heartbeat) posted (1 ∷ []) server refl refl
