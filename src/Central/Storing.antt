-- ===== src/Central/Storing.antt =====
-- `StoreIngestBatch` with `storeIngestEvent` and `enrichUsageEvent` (internal/store/central.go): a
-- batch is one transaction. The counter of `bumpAPIIntegrationUsageVersion` is left away.
pub mod Laws
pub mod Growth
pub mod Received
pub mod Enriched
pub mod Batches
pub mod Replay
pub mod Blocked
use Prim.Native.String.{◌++◌ as ◌<>◌}
use text.Mathlib.Text.{◌==◌ as str_eq}
use on_watch.Base.{
  ℕ, suc, Bool, true, false, not, ◌&&◌, ◌||◌, Option, none, some, List, [], ◌∷◌, ◌++◌, map, String,
  ◌==◌, if◌then◌else◌, lookup, insert, string_eq,
}
use mathlib.Core.Option
use on_watch.Ingest.{Event, EventResult, has_seen}
use on_watch.Ingest.Validation.{QuotaMetric, QuotaSnapshot}
use on_watch.Central.Tables.{
  Target, usage_events, compacted_fingerprints, quota_snapshots, Receipt, UsageEvent, Metadata,
  SnapshotRow, Tables, Statements, ◌>>=◌, ◌>>◌, pure, attempt, or_fail, put, gets, statement, query,
  exec, transaction, pair_eq,
}
use on_watch.Central.Rows.{
  usage_row, find_usage, add_value, has_value, has_usage_row, enrich_row, active_owner, is_owned_by,
  has_provenance,
}
use on_watch.Central.Payload.{
  Externals, canonical_payload, hash_payload, immutable_digest, json_is_enrichment,
  normalize_central_provider, fits,
}

-- A rejection with its code, or a status with the row that has the observation.
pub data Outcome : Type 0 where
  refused : String → Outcome
  recorded : String → Target → Outcome

abbrev pub answer : Event → String → String → EventResult
answer e status code = record { event_id = e.event_id; status = status; code = code }

abbrev pub reject : Event → String → EventResult
reject e code = answer e "rejected" code

abbrev pub is_new : EventResult → Bool
is_new r = str_eq r.status "accepted" || str_eq r.status "enriched"

abbrev pub has_new : List EventResult → Bool
has_new [] = false
has_new (r ∷ rs) = is_new r || has_new rs

module _ {F W : Type 0} where
  -- The trigger or the unique fingerprint ignores the row.
  abbrev pub is_ignored : String → Tables F W → Bool
  is_ignored fingerprint t =
      has_seen fingerprint t.compacted
      || elim (find_usage fingerprint t.usage) [ none ↦ false | some _ ↦ true ]

  -- `INSERT OR IGNORE`, with the number of the row that it adds.
  pub insert_usage : UsageEvent F → Metadata → ℕ → Statements F W (Option ℕ)
  unfolding find_usage attempt
  insert_usage e m now = do
    t ← query (λ t. t)
    let id = suc t.last_usage_id
    let rows = t.usage ++ usage_row e m now id ∷ []
    (if is_ignored e.fingerprint t
        then pure none
        else put (record t { usage = rows; last_usage_id = id }) >> pure (some id))

  pub insert_values : ℕ → List (QuotaMetric F) → Statements F W (Unit {0})
  insert_values id [] = pure tt
  insert_values id (metric ∷ metrics) =
      exec (λ t.
        if has_value id metric.name t.snapshots
        then none
        else some (record t { snapshots = map (add_value id metric) t.snapshots }))
      >> insert_values id metrics

  pub insert_snapshot : String → Event → ℕ → Statements F W ℕ
  insert_snapshot provider e now = do
    t ← query (λ t. t)
    let id = suc t.last_snapshot_id
    let row : SnapshotRow F = record {
      id = id;
      provider = provider;
      external_account_id = e.account.external_id;
      account_label = e.account.label;
      captured_at = e.captured_at;
      created_at = now;
      values = [];
    }
    put (record t { snapshots = t.snapshots ++ row ∷ []; last_snapshot_id = id }) >> pure id

  -- The foreign key of `device_id`, which SQLite checks here.
  abbrev pub is_device : String → Tables F W → Bool
  is_device d t = elim (lookup d t.devices) [ none ↦ false | some _ ↦ true ]

  -- Both rows of an observation that is recorded.
  pub insert_receipt : String → Event → Receipt → Statements F W (Unit {0})
  insert_receipt d e receipt = exec λ t. elim (lookup (d, e.event_id) t.receipts) [
    | some _ ↦ none
    | none ↦
        if is_device d t
        then some (record t { receipts = insert (d, e.event_id) receipt t.receipts })
        else none
  ]

  pub insert_provenance : String → Event → Target → Statements F W (Unit {0})
  insert_provenance d e target = exec λ t.
      if has_provenance d e.event_id t.provenance || not (is_device d t)
      then none
      else some (record t {
        provenance =
            t.provenance
            ++ record {
              target = target;
              device_id = d;
              event_id = e.event_id;
              observed_at = e.captured_at;
            }
              ∷ [];
      })

  -- `touch` of the device that has sent something new.
  unfoldable pub accept_at : String → ℕ → Statements F W (Unit {0})
  accept_at d now = exec λ t. some (elim (lookup d t.devices) [
    | none ↦ t
    | some row ↦ record t {
      devices = insert d (record row { last_accepted_event_at = some now }) t.devices;
    }
  ])

  -- The row with the fingerprint, or the fingerprint alone.
  pub after_known : String → Option ℕ → Statements F W Outcome
  after_known fingerprint (some id) = pure (recorded "duplicate" (usage_events id))
  after_known fingerprint none = do
    compacted ← query (λ t. has_seen fingerprint t.compacted)
    or_fail (
        if compacted
        then some (recorded "duplicate" (compacted_fingerprints fingerprint))
        else none)

  -- After the insertion of a usage row: it was added, or its fingerprint was there.
  pub after_insert : String → Option ℕ → Statements F W Outcome
  unfolding after_known
  after_insert fingerprint (some id) = pure (recorded "accepted" (usage_events id))
  after_insert fingerprint none = do
    known ← query (λ t. find_usage fingerprint t.usage)
    after_known fingerprint known

  -- A call that writes other tables.
  abbrev pub on_other : (W → Option W) → Statements F W (Unit {0})
  on_other call = exec (λ t. Option.map (λ other. record t { other = other }) (call t.other))

  pub update_metadata : ℕ → Metadata → Statements F W Bool
  update_metadata id m = do
    works ← attempt
    t ← gets (λ t. t)
    (if works && has_usage_row id t.usage
        then put (record t { usage = map (enrich_row id m) t.usage }) >> pure true
        else pure false)

  abbrev pub update_receipt : String → Event → Receipt → Statements F W (Unit {0})
  update_receipt d e r =
      exec (λ t. some (record t { receipts = insert (d, e.event_id) r t.receipts }))

  module _ (x : Externals F W) where
    pub enrich_parsed : ℕ → Event → Option (UsageEvent F) → Statements F W Bool
    unfolding update_metadata fits
    enrich_parsed id e none = pure false
    enrich_parsed id e (some usage) =
        if fits x usage e then update_metadata id (x.metadata usage) else pure false

    -- Whether the row is updated; an error of the statement is one of the function.
    pub enrich_usage_event : ℕ → String → Event → Statements F W Bool
    unfolding enrich_parsed
    enrich_usage_event id d e = enrich_parsed id e (x.parse_usage e.payload ("device:" <> d))

    abbrev pub enriched : Event → ℕ → Receipt → Receipt
    enriched e now r = record r {
      payload_digest = hash_payload x e.payload;
      payload_json = canonical_payload x e.payload;
      status = "enriched";
      enriched_at = some now;
    }

    pub enrich : String → Event → ℕ → Receipt → ℕ → Statements F W EventResult
    unfolding enrich_usage_event hash_payload canonical_payload
    enrich d e now r id = do
      done ← enrich_usage_event id d e
      (if done
          then update_receipt d e (enriched e now r) >> pure (answer e "enriched" "")
          else pure (reject e "event_payload_conflict"))

    pub enrich_target : String → Event → ℕ → Receipt → Target → Statements F W EventResult
    unfolding enrich
    enrich_target d e now r (compacted_fingerprints _) = pure (answer e "duplicate" "")
    enrich_target d e now r (usage_events id) = enrich d e now r id
    enrich_target d e now r (quota_snapshots id) = enrich d e now r id

    -- An event that has a receipt.
    pub compare_receipt : String → Event → ℕ → Receipt → Statements F W EventResult
    unfolding enrich_target immutable_digest hash_payload json_is_enrichment
    compare_receipt d e now r =
        if not (str_eq r.immutable_digest (immutable_digest x e))
        then pure (reject e "event_identity_conflict")
        else if str_eq r.payload_digest (hash_payload x e.payload)
        then pure (answer e "duplicate" "")
        else if str_eq e.kind "usage_event" && json_is_enrichment x r.payload_json e.payload
        then enrich_target d e now r r.target
        else pure (reject e "event_payload_conflict")

    pub store_usage_row : UsageEvent F → ℕ → Statements F W Outcome
    unfolding after_insert insert_usage find_usage
    store_usage_row usage now = do
      on_other (x.telemetry usage)
      added ← insert_usage usage (x.metadata usage) now
      after_insert usage.fingerprint added

    pub store_parsed : Event → ℕ → Option (UsageEvent F) → Statements F W Outcome
    unfolding store_usage_row fits
    store_parsed e now none = pure (refused "invalid_usage_payload")
    store_parsed e now (some usage) =
        if fits x usage e
        then store_usage_row usage now
        else pure (refused "payload_envelope_mismatch")

    pub store_usage : String → Event → ℕ → Statements F W Outcome
    unfolding store_parsed
    store_usage d e now = store_parsed e now (x.parse_usage e.payload ("device:" <> d))

    pub store_snapshot : String → Event → ℕ → QuotaSnapshot F → Statements F W Outcome
    unfolding insert_values insert_snapshot
    store_snapshot provider e now snapshot = do
      id ← insert_snapshot provider e now
      insert_values id snapshot.metrics
      on_other (x.mirror provider e.account.external_id e.captured_at snapshot)
      pure (recorded "accepted" (quota_snapshots id))

    pub store_read : String → Event → ℕ → Option (QuotaSnapshot F) → Statements F W Outcome
    unfolding store_snapshot
    store_read provider e now none = pure (refused "invalid_quota_payload")
    store_read provider e now (some snapshot) = store_snapshot provider e now snapshot

    pub store_quota : String → Event → ℕ → Statements F W Outcome
    unfolding active_owner normalize_central_provider store_read
    store_quota d e now = do
      let provider = normalize_central_provider x e.provider
      owner ← query (λ t. active_owner provider e.account.external_id t.owners)
      (if is_owned_by d owner
          then store_read provider e now (x.snapshot e.payload)
          else pure (refused "ownership_conflict"))

    abbrev pub receipt_of : Event → ℕ → String → Target → Receipt
    receipt_of e now status target = record {
      immutable_digest = immutable_digest x e;
      payload_digest = hash_payload x e.payload;
      payload_json = canonical_payload x e.payload;
      event_kind = e.kind;
      status = status;
      target = target;
      accepted_at = now;
      enriched_at = none;
    }

    pub settle_event : String → Event → ℕ → Outcome → Statements F W EventResult
    unfolding insert_receipt insert_provenance immutable_digest hash_payload canonical_payload
    settle_event d e now (refused code) = pure (reject e code)
    settle_event d e now (recorded status target) =
        insert_receipt d e (receipt_of e now status target)
        >> insert_provenance d e target
        >> pure (answer e status "")

    -- An event that has no receipt.
    pub store_new : String → Event → ℕ → Statements F W EventResult
    unfolding store_usage store_quota settle_event
    store_new d e now = do
      outcome ← (if str_eq e.kind "usage_event" then store_usage d e now else store_quota d e now)
      settle_event d e now outcome

    pub store_after : String → Event → ℕ → Option Receipt → Statements F W EventResult
    unfolding compare_receipt store_new
    store_after d e now none = store_new d e now
    store_after d e now (some r) = compare_receipt d e now r

    unfoldable pub store_ingest_event : String → Event → ℕ → Statements F W EventResult
    unfolding store_after
    store_ingest_event d e now = do
      prior ← query (λ t. lookup (d, e.event_id) t.receipts)
      store_after d e now prior

    -- The loop over the events.
    unfoldable pub store_events : String → List Event → ℕ → Statements F W (List EventResult)
    unfolding store_ingest_event
    store_events d [] now = pure []
    store_events d (e ∷ es) now = do
      result ← store_ingest_event d e now
      results ← store_events d es now
      pure (result ∷ results)

    unfoldable pub store_batch : String → List Event → ℕ → Statements F W (List EventResult)
    unfolding store_events accept_at
    store_batch d events now = do
      results ← store_events d events now
      (if has_new results then accept_at d now else pure tt)
      pure results

    unfoldable pub store_ingest_batch : String → List Event → ℕ → Statements F W (List EventResult)
    unfolding store_batch
    store_ingest_batch d events now = transaction (store_batch d events now)
