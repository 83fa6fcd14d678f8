-- ===== src/Ingest/Decoding.antt =====
-- `DecodeBatch` and `ValidateDeviceID` (internal/ingest/types.go). The strict JSON decoder is
-- outside the repository: a parameter, `none` where it fails or where a second value follows.
use Prim.Native.String.{len, slice}
use Prim.Native.Char.{code}
use text.Mathlib.Text.{starts_with}
use on_watch.Base.{
  ℕ, ◌+◌, ◌%◌, Bool, true, not, ◌&&◌, ◌||◌, Option, none, some, List, [], String, ltb, leb, ◌==◌,
  if◌then◌else◌, length,
}
use on_watch.Ingest.{Batch, has_duplicate}

abbrev pub schema_version : ℕ
schema_version = 1

abbrev pub max_batch_events : ℕ
max_batch_events = 500

-- 2 << 20.
abbrev pub max_request_bytes : ℕ
max_request_bytes = 2097152

-- Ten minutes.
abbrev pub max_future_clock_skew : ℕ
max_future_clock_skew = 600000000000

pub data DecodeError : Type 0 where
  request_size invalid_json unsupported_schema invalid_batch_metadata invalid_device_id batch_size
        duplicate_event_id :
      DecodeError

-- A digit that `hex.DecodeString` takes.
abbrev pub is_hex : ℕ → Bool
is_hex c = (leb b'0' c && leb c b'9') || (leb b'a' c && leb c b'f') || (leb b'A' c && leb c b'F')

abbrev pub all_hex : String → Bool
all_hex String.[] = true
all_hex (String.◌∷◌ c s) = is_hex (code c) && all_hex s

unfoldable pub validate_device_id : String → Option DecodeError
validate_device_id id =
    let digits = slice id 4 (len id) in
    if not (len id == 36) || not (starts_with id "dev_")
    then some invalid_device_id
    else if all_hex digits && len digits % 2 == 0
    then none
    else some invalid_device_id

-- What follows the JSON; nil is `none`.
unfoldable pub check_batch : ℕ → Batch → Option DecodeError
unfolding validate_device_id
check_batch now batch =
    if not (batch.schema_version == schema_version)
    then some unsupported_schema
    else if batch.sent_at == 0
        || ltb (now + max_future_clock_skew) batch.sent_at
        || ltb 128 (len batch.collector_version)
    then some invalid_batch_metadata
    else elim (validate_device_id batch.device_id) [
      | some e ↦ some e
      | none ↦
          if length batch.events == 0 || ltb max_batch_events (length batch.events)
          then some batch_size
          else if has_duplicate [] batch.events
          then some duplicate_event_id
          else none
    ]

pub data Decoded : Type 0 where
  failed : DecodeError → Decoded
  decoded : Batch → Decoded

unfoldable pub decode_batch : (List ℕ → Option Batch) → List ℕ → ℕ → Decoded
unfolding check_batch
decode_batch decode body now =
    if length body == 0 || ltb max_request_bytes (length body)
    then failed request_size
    else elim (decode body) [
      | none ↦ failed invalid_json
      | some batch ↦ elim (check_batch now batch) [ some e ↦ failed e | none ↦ decoded batch ]
    ]
