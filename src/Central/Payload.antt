-- ===== src/Central/Payload.antt =====
-- Payloads, their digests and enrichments: `jsonIsEnrichment` of internal/store/central.go, and
-- `CanonicalPayload`, `HashPayload` and `ImmutableDigest` of internal/ingest/types.go. JSON,
-- SHA-256 and the text functions of Go are outside the repository: fields of `Externals`. So are
-- the usage lines, the telemetry and the mirror tables, which are not modelled.
use text.Mathlib.Text.{◌==◌ as str_eq}
use on_watch.Base.{ℕ, Bool, true, false, not, ◌&&◌, Option, none, some, String, ◌==◌, if◌then◌else◌}
use on_watch.Ingest.{Event}
use on_watch.Ingest.Validation.{
  Json, null, boolean, number, string, array, object, Fields, no_fields, field, QuotaSnapshot,
}
use on_watch.Central.Tables.{UsageEvent, Metadata}

-- `parse` is `json.Unmarshal` to `any`, where an object has each key once, and `marshal` its
-- `json.Marshal`. `identity` is the JSON of kind, time, provider and account. `parse_usage` is
-- `ParseUsageEventLine` of a payload and a source, `metadata` is `normalizedAPIIntegrationMetadata`,
-- `snapshot` is the lenient decoder of a quota payload, `telemetry` is `recordSubscriptionTelemetry`
-- and `mirror` is `mirrorCentralQuotaSnapshot`, each `none` on an error.
pub record Externals (F W : Type 0) : Type 0 where
  pub trim : String → String
  pub lower : String → String
  pub parse : String → Option Json
  pub marshal : Json → String
  pub hash : String → String
  pub identity : String → ℕ → String → String → String
  pub parse_usage : String → String → Option (UsageEvent F)
  pub metadata : UsageEvent F → Metadata
  pub snapshot : String → Option (QuotaSnapshot F)
  pub telemetry : UsageEvent F → W → Option W
  pub mirror : String → String → ℕ → QuotaSnapshot F → W → Option W

abbrev pub is_object : Json → Bool
is_object (object _) = true
is_object _ = false

-- The index `newMap[key]`.
abbrev pub member : String → Fields → Option Json
member key no_fields = none
member key (field k v fields) = if str_eq k key then some v else member key fields

abbrev pub fields_of : Json → Option Fields
fields_of (object own) = some own
fields_of _ = none

module _ {F W : Type 0} (x : Externals F W) where
  unfoldable pub canonical_payload : String → String
  canonical_payload payload = elim (x.parse payload) [ none ↦ payload | some v ↦ x.marshal v ]

  unfoldable pub hash_payload : String → String
  unfolding canonical_payload
  hash_payload payload = x.hash (canonical_payload payload)

  unfoldable pub immutable_digest : Event → String
  immutable_digest e =
      x.hash (x.identity e.kind e.captured_at (x.lower e.provider) e.account.external_id)

  pub json_equal : Json → Json → Bool
  json_equal left right = str_eq (x.marshal left) (x.marshal right)

  -- A value that is no object.
  abbrev pub contains_value : Json → Json → Bool
  contains_value old new = if is_object new then false else json_equal old new

  -- The closure `contains`, and its loop over the keys of an object.
  unfoldable mutual
    pub contains : Json → Json → Bool
    contains null new = contains_value null new
    contains (boolean b) new = contains_value (boolean b) new
    contains (number n) new = contains_value (number n) new
    contains (string s) new = contains_value (string s) new
    contains (array items) new = contains_value (array items) new
    contains (object fields) new = elim (fields_of new) [
      | none ↦ false
      | some others ↦ contains_fields fields others
    ]

    pub contains_fields : Fields → Fields → Bool
    contains_fields no_fields others = true
    contains_fields (field key v fields) others = elim (member key others) [
      | none ↦ false
      | some w ↦ contains v w && contains_fields fields others
    ]

  unfoldable pub json_is_enrichment : String → String → Bool
  unfolding contains json_equal
  json_is_enrichment previous current = elim (x.parse previous) [
    | none ↦ false
    | some old ↦ elim (x.parse current) [
      | none ↦ false
      | some new ↦ contains old new && not (json_equal old new)
    ]
  ]

  -- What `normalizeCentralProvider` returns.
  unfoldable pub normalize_central_provider : String → String
  normalize_central_provider provider =
      let name = x.lower (x.trim provider) in if str_eq name "codex" then "openai" else name

  -- Whether a usage line is of the event's provider, account and time.
  unfoldable pub fits : UsageEvent F → Event → Bool
  fits usage e =
      str_eq usage.provider (x.lower e.provider)
      && str_eq usage.account e.account.external_id
      && usage.timestamp == e.captured_at
