-- ===== src/Ingest/Validation.antt =====
-- `Event.Validate` and `containsForbiddenKey` (internal/ingest/types.go). JSON is outside the
-- repository: `marshal_size` is the length that `json.Marshal` gives an event, `parse` is
-- `json.Unmarshal` to `any`, and `snapshot` the strict decoder of a quota payload. float64 is any
-- type with a test for NaN and the infinities.
pub mod Keys
use Prim.Native.String.{len}
use text.Mathlib.Text.{◌==◌ as str_eq, starts_with}
use on_watch.Base.{
  ℕ, ◌+◌, Bool, true, false, not, ◌&&◌, ◌||◌, Option, none, some, List, [], ◌∷◌, String, ltb, ◌==◌,
  if◌then◌else◌, length,
}
use on_watch.Ingest.{Event, has_seen, max_event_bytes}
use on_watch.Ingest.Decoding.{max_future_clock_skew}

mutual
  pub data Json : Type 0 where
    null : Json
    boolean : Bool → Json
    number : String → Json
    string : String → Json
    array : Items → Json
    object : Fields → Json

  pub data Items : Type 0 where
    no_items : Items
    item : Json → Items → Items

  pub data Fields : Type 0 where
    no_fields : Fields
    field : String → Json → Fields → Fields

pub record QuotaMetric (F : Type 0) : Type 0 where
  pub group : String
  pub window : String
  pub name : String
  pub value : F
  pub limit : Option F
  pub unit : String
  pub resets_at : Option ℕ
  pub status : String

pub record QuotaSnapshot (F : Type 0) : Type 0 where
  pub plan : String
  pub version : ℕ
  pub metrics : List (QuotaMetric F)

-- `trim` and `lower` are those of the package `strings`.
pub record Payloads (F : Type 0) : Type 0 where
  pub trim : String → String
  pub lower : String → String
  pub marshal_size : Event → Option ℕ
  pub parse : String → Option Json
  pub snapshot : String → Option (QuotaSnapshot F)
  pub is_finite : F → Bool

pub data EventError : Type 0 where
  event_size invalid_event_id unknown_event_kind future_timestamp observation_too_old
        invalid_provider invalid_account forbidden_payload_field invalid_quota_payload :
      EventError

-- Ninety days.
abbrev pub max_live_observation_age : ℕ
max_live_observation_age = 7776000000000000

abbrev pub forbidden : List String
forbidden =
    "authorization" ∷ "access_token" ∷ "refresh_token" ∷ "token" ∷ "cookie" ∷ "cookies" ∷ "prompt"
    ∷ "completion" ∷ "source_path" ∷ "raw_line" ∷ []

module _ {F : Type 0} (p : Payloads F) where
  abbrev pub is_forbidden : String → Bool
  is_forbidden key = has_seen (p.lower (p.trim key)) forbidden

  -- The closure `walk`.
  unfoldable mutual
    pub walk : Json → Bool
    walk null = false
    walk (boolean b) = false
    walk (number n) = false
    walk (string t) = false
    walk (array items) = walk_items items
    walk (object fields) = walk_fields fields

    pub walk_items : Items → Bool
    walk_items no_items = false
    walk_items (item v items) = walk v || walk_items items

    pub walk_fields : Fields → Bool
    walk_fields no_fields = false
    walk_fields (field key v fields) = is_forbidden key || (walk v || walk_fields fields)

  pub contains_forbidden_key : String → Bool
  contains_forbidden_key payload = elim (p.parse payload) [ none ↦ false | some v ↦ walk v ]

  abbrev pub is_blank : String → Bool
  is_blank s = str_eq (p.trim s) ""

  abbrev pub is_bad_limit : Option F → Bool
  is_bad_limit none = false
  is_bad_limit (some limit) = not (p.is_finite limit)

  pub is_valid_metric : QuotaMetric F → Bool
  is_valid_metric m = not (
      is_blank m.name
      || ltb 128 (len m.name)
      || is_blank m.unit
      || ltb 32 (len m.unit)
      || not (p.is_finite m.value)
      || is_bad_limit m.limit
      || ltb 64 (len m.status)
      || ltb 128 (len m.group)
      || ltb 32 (len m.window))

  -- The loop over the metrics, whose names differ.
  pub are_valid_metrics : List String → List (QuotaMetric F) → Bool
  unfolding is_valid_metric
  are_valid_metrics seen [] = true
  are_valid_metrics seen (m ∷ ms) =
      not (has_seen m.name seen) && (is_valid_metric m && are_valid_metrics (m.name ∷ seen) ms)

  pub validate_snapshot : String → Option EventError
  unfolding are_valid_metrics
  validate_snapshot payload = elim (p.snapshot payload) [
    | none ↦ some invalid_quota_payload
    | some s ↦
        if not (s.version == 1)
          || length s.metrics == 0
          || ltb 128 (length s.metrics)
          || ltb 128 (len s.plan)
        then some invalid_quota_payload
        else if are_valid_metrics [] s.metrics
        then none
        else some invalid_quota_payload
  ]

  -- The checks of the envelope, in their order.
  pub validate_envelope : ℕ → Event → Option EventError
  validate_envelope now event =
      let id = event.event_id in
      let account = event.account in
      if ltb (len id) 5 || ltb 160 (len id) || not (starts_with id "evt_")
      then some invalid_event_id
      else if not (str_eq event.kind "usage_event") && not (str_eq event.kind "quota_snapshot")
      then some unknown_event_kind
      else if event.captured_at == 0 || ltb (now + max_future_clock_skew) event.captured_at
      then some future_timestamp
      else if ltb (event.captured_at + max_live_observation_age) now
      then some observation_too_old
      else if is_blank event.provider || ltb 64 (len event.provider)
      then some invalid_provider
      else if is_blank account.external_id
          || ltb 256 (len account.external_id)
          || ltb 256 (len account.label)
      then some invalid_account
      else none

  pub validate_payload : Event → Option EventError
  unfolding contains_forbidden_key validate_snapshot
  validate_payload event =
      if len event.payload == 0 || ltb max_event_bytes (len event.payload)
      then some event_size
      else if contains_forbidden_key event.payload
      then some forbidden_payload_field
      else if str_eq event.kind "quota_snapshot"
      then validate_snapshot event.payload
      else none

  unfoldable pub validate : ℕ → Event → Option EventError
  unfolding validate_envelope validate_payload
  validate now event = elim (p.marshal_size event) [
    | none ↦ some event_size
    | some size ↦
        if ltb max_event_bytes size
        then some event_size
        else elim (validate_envelope now event) [ some e ↦ some e | none ↦ validate_payload event ]
  ]
