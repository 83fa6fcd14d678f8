-- ===== src/Tests/Collecting.antt =====
-- Concrete runs of the collector's spool and uploads, and the theorems about them at such runs.
use on_watch.Base.{
  ℕ, ◌≤◌, ◌≡◌, refl, false, Option, none, some, List, [], ◌∷◌, map, String, arith, ◌==◌,
  if◌then◌else◌, string_eq, insert,
}
use on_watch.Ingest.{Event, Account}
use on_watch.Ingest.Decoding.{check_batch, validate_device_id}
use on_watch.Ingest.Desired.{GoText, DesiredConfig}
use on_watch.Collector.Lines.{Bytes, seek, complete_lines}
use on_watch.Collector.Spool.{
  Codec, CursorState, Spool, SpoolRecord, batch, ack, ack_offsets, append, remove_acked, save_state,
  disk_bytes,
}
use on_watch.Collector.Spool.Removal.{IsSpool}
use on_watch.Collector.Spool.Delivery.{Delivers, batch-ack}
use on_watch.Collector.Spool.Writing.{Encodes, IsFresh, Appends}
use on_watch.Collector.Spool.Appending.{append-Appends}
use on_watch.Collector.Spool.Bounds.{append-disk_bytes}
use on_watch.Collector.Spool.Distinct.{sent}
use on_watch.Collector.Upload.{Reply, answered, Runtime, request, upload_once}
use on_watch.Collector.Upload.Delivery.{Uploads, upload_once-Uploads}
use on_watch.Collector.Upload.Draining.{accepted}
use on_watch.Collector.Upload.Requests.{request-check_batch}

abbrev pub home : Account
home = record { external_id = "home"; label = "" }

abbrev pub event_a : Event
event_a = record {
  event_id = "evt_a";
  kind = "usage_event";
  captured_at = 1;
  provider = "anthropic";
  account = home;
  payload = "{ }";
}

abbrev pub event_b : Event
event_b = record event_a { event_id = "evt_b" }

-- Two events, written as one letter each.
abbrev read_letter : Bytes → Option Event
read_letter [] = none
read_letter (b ∷ bs) = if b == 97 then some event_a else if b == 98 then some event_b else none

abbrev pub letters : Codec
letters = record {
  marshal = λ e. (if string_eq.beq e.event_id "evt_a" then 97 else 98) ∷ [];
  unmarshal = read_letter;
}

abbrev pub day_one : String
day_one = "events-2026-01-01-1.jsonl"

abbrev pub no_cursors : CursorState
no_cursors = record { offsets = []; last_upload_at = none; last_error = "" }

abbrev pub two_events : Spool
two_events = record {
  files = (day_one, 97 ∷ 10 ∷ 98 ∷ 10 ∷ []) ∷ [];
  saved = no_cursors;
  state = no_cursors;
  max_bytes = 100;
  faults = [];
}

abbrev record_a : SpoolRecord
record_a = record { event = event_a; file = day_one; end_offset = 2 }

abbrev record_b : SpoolRecord
record_b = record { event = event_b; file = day_one; end_offset = 4 }

pub two_events-IsSpool : IsSpool two_events
two_events-IsSpool = record { unique = (refl, tt); persisted = (refl, tt) }

two_events-batch : batch letters 10 100 two_events ≡ some (record_a ∷ record_b ∷ [])
unfolding batch seek complete_lines
two_events-batch = refl

-- A batch of one leaves the other record queued.
one_acked : (ack (record_a ∷ []) 9 two_events).1.state.offsets ≡ insert day_one 2 []
unfolding ack ack_offsets save_state remove_acked
one_acked = refl

batch-ack_example :
    Delivers letters
      (record_a ∷ record_b ∷ [])
      two_events
      (ack (record_a ∷ record_b ∷ []) 9 two_events)
batch-ack_example =
    batch-ack letters 10 100 9 two_events (record_a ∷ record_b ∷ []) two_events-IsSpool
      two_events-batch

event_b-Encodes : Encodes letters event_b event_b
event_b-Encodes = record { plain = (refl, tt); decoded = refl }

new_file-IsFresh : IsFresh "events-2026-01-02-7.jsonl" (remove_acked two_events).1
unfolding remove_acked save_state
new_file-IsFresh = record { absent = refl; unread = refl; unsaved = refl }

append-Appends_example :
    Appends letters event_b two_events
      (append letters "events-2026-01-02" "events-2026-01-02-7.jsonl" none event_b two_events)
append-Appends_example =
    append-Appends letters event_b event_b event_b-Encodes "events-2026-01-02"
      "events-2026-01-02-7.jsonl" none two_events two_events-IsSpool new_file-IsFresh

append-disk_bytes_example :
    disk_bytes
      (append letters "events-2026-01-02" "events-2026-01-02-7.jsonl"
        (some 1)
        event_b
        two_events).1.files
    ≤ 100
append-disk_bytes_example =
    append-disk_bytes letters "events-2026-01-02" "events-2026-01-02-7.jsonl" (some 1) event_b
      two_events two_events-IsSpool new_file-IsFresh (omega arith)

abbrev pub no_config : DesiredConfig
no_config = record {
  revision = 0;
  assignments = [];
  sources = [];
  collection_interval = "";
  upload_interval = "";
}

abbrev pub accept_all : List Event → ℕ → Reply
accept_all es revision =
    answered
      (record { config_revision = revision; desired_config = no_config; results = map accepted es })

abbrev pub plain_text : GoText
plain_text = record {
  trim = λ s. s;
  lower = λ s. s;
  contains_any = λ s t. false;
  has_control = λ s. false;
  parse_duration = λ s. some 60000000000;
  parse_address = λ s. some ("", s);
}

abbrev pub collector : Runtime
collector = record {
  spool = two_events;
  batch_size = 1;
  revision = 0;
  desired = no_config;
  auth_paused = false;
  auth_pause_until = 0;
  retry_until = 5;
  retry_attempt = 2;
  quarantined = [];
  local = record {
    config_revision = 0;
    desired_config = no_config;
    auth_paused = false;
    auth_pause_until = none;
  };
  faults = [];
}

upload_once-Uploads_example :
    Uploads letters accept_all collector
      (upload_once plain_text letters (λ d. d) accept_all 7 collector)
upload_once-Uploads_example =
    upload_once-Uploads letters accept_all plain_text (λ d. d) 7 collector two_events-IsSpool

abbrev device : String
device = "dev_0123456789abcdef0123456789abcdef"

device-valid : validate_device_id device ≡ none
unfolding validate_device_id
device-valid = refl

request-check_batch_example :
    check_batch 20 (request device "v1" 0 10 (sent (record_a ∷ record_b ∷ []))) ≡ none
request-check_batch_example =
    request-check_batch letters 10 100 two_events record_a (record_b ∷ []) device "v1" 0 10 20
      two_events-batch (omega arith) device-valid (omega arith) (omega arith) (omega arith)
