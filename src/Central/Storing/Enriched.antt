-- ===== src/Central/Storing/Enriched.antt =====
-- An event that comes again, with more in its payload or not (internal/store/central.go).
use Prim.Native.String.{◌++◌ as ◌<>◌}
use text.Mathlib.Text.{◌==◌ as str_eq}
use text.Mathlib.TextEquality.{eq_iff}
use on_watch.Base.{
  ℕ, ◌≡◌, refl, sym, Bool, false, ◌&&◌, inl, inr, Option, none, some, String, arith, length-map,
  lookup, insert, Bool-cases, string_eq,
}
use on_watch.Ingest.{Event}
use on_watch.Central.Tables.{
  Target, usage_events, compacted_fingerprints, quota_snapshots, Receipt, UsageEvent, Metadata,
  Tables, Database, query, attempt, pair_eq,
}
use on_watch.Central.Rows.{has_usage_row, enrich_row}
use on_watch.Central.Payload.{Externals, hash_payload, immutable_digest, json_is_enrichment, fits}
use on_watch.Central.Storing.{
  update_metadata, enrich_parsed, enrich_usage_event, enriched, update_receipt, enrich,
  enrich_target, compare_receipt, store_after, store_ingest_event,
}
use on_watch.Central.Storing.Growth.{Grows, observations}
use on_watch.Central.Storing.Received.{
  Received, Stores, Adds, Stores-rejected, Stores-duplicate, Adds-Stores, store_new-Stores,
}
use on_watch.Central.Storing.Laws.{
  Ensures, and_then-Ensures, Ensures-imp, attempt-Ensures, query-Ensures, exec-Ensures, if-Ensures,
}

module _ {F W : Type 0} (x : Externals F W) where
  update_receipt-Adds :
      (d : String) (e : Event) (r : Receipt) (db : Database F W)
      → Ensures (λ (u : Unit {0}) t. Adds x d e r db.tables t) (update_receipt d e r db)
  update_receipt-Adds d e r db =
      Ensures-imp _ (λ (u : Unit {0}) t. Adds x d e r db.tables t) (update_receipt d e r db)
        (exec-Ensures (λ t. some (record t { receipts = insert (d, e.event_id) r t.receipts })) db)
        (λ u t h. ground arith)

  -- What the update of a usage row leaves.
  record Updates (s t : Tables F W) (done : Bool) : Type 0 where
    receipts : t.receipts ≡ s.receipts
    owners : t.owners ≡ s.owners
    devices : t.devices ≡ s.devices
    counted : observations t ≡ observations s
    undone : done ≡ false → t ≡ s

  Updates-same : (s t : Tables F W) (done : Bool) → t ≡ s → Updates s t done
  Updates-same s t done h = rw h (record {
    receipts = refl;
    owners = refl;
    devices = refl;
    counted = refl;
    undone = λ _. refl;
  })

  Updates-Grows : (s t : Tables F W) (done : Bool) → Updates s t done → Grows s t 0
  Updates-Grows s t done h = record {
    receipts = h.receipts;
    owners = h.owners;
    devices = h.devices;
    more = omega (arith, h.counted);
  }

  update_metadata-Updates :
      (id : ℕ) (m : Metadata) (db : Database F W)
      → Ensures (λ done t. Updates db.tables t done) (update_metadata id m db)
  unfolding update_metadata
  update_metadata-Updates id m db =
      and_then-Ensures _ (λ done t. Updates db.tables t done) _ (attempt db) (attempt-Ensures db)
        (λ works db1 h.
          if-Ensures (λ done t. Updates db.tables t done)
            (works && has_usage_row id db1.tables.usage) _ _ db1
            (λ _. rw h (record {
              receipts = refl;
              owners = refl;
              devices = refl;
              counted = omega (arith, length-map (enrich_row id m) db.tables.usage);
              undone = λ done. absurd (cc);
            }))
            (λ _. Updates-same db.tables db1.tables false h))

  enrich_parsed-Updates :
      (id : ℕ) (e : Event) (parsed : Option (UsageEvent F)) (db : Database F W)
      → Ensures (λ done t. Updates db.tables t done) (enrich_parsed x id e parsed db)
  unfolding enrich_parsed
  enrich_parsed-Updates id e none db = Updates-same db.tables db.tables false refl
  enrich_parsed-Updates id e (some usage) db =
      if-Ensures (λ done t. Updates db.tables t done) (fits x usage e) _ _ db
        (λ _. update_metadata-Updates id (x.metadata usage) db)
        (λ _. Updates-same db.tables db.tables false refl)

  enrich-Stores :
      (d : String) (e : Event) (now : ℕ) (r : Receipt) (id : ℕ) (db : Database F W)
      → r.immutable_digest ≡ immutable_digest x e
      → Ensures (Stores x d e db.tables) (enrich x d e now r id db)
  unfolding enrich enrich_usage_event
  enrich-Stores d e now r id db identity =
      let r' = enriched x e now r in
      let parsed = x.parse_usage e.payload ("device:" <> d) in
      and_then-Ensures (λ done t. Updates db.tables t done) (Stores x d e db.tables) _
        (enrich_parsed x id e parsed db) (enrich_parsed-Updates id e parsed db)
        (λ done db1 h.
          if-Ensures (Stores x d e db.tables) done _ _ db1
            (λ _.
              and_then-Ensures (λ (u : Unit {0}) t. Adds x d e r' db1.tables t)
                (Stores x d e db.tables) _ (update_receipt d e r' db1)
                (update_receipt-Adds d e r' db1)
                (λ u db2 k.
                  Adds-Stores x d e db.tables db1.tables db2.tables r' "enriched" refl
                    (Updates-Grows _ _ done h) identity refl k))
            (λ undone. Stores-rejected x d e _ db.tables db1.tables (h.undone undone)))

  enrich_target-Stores :
      (d : String) (e : Event) (now : ℕ) (r : Receipt) (target : Target) (db : Database F W)
      → r.immutable_digest ≡ immutable_digest x e
      → ((fingerprint : String)
          → target ≡ compacted_fingerprints fingerprint
          → Received x d e db.tables)
      → Ensures (Stores x d e db.tables) (enrich_target x d e now r target db)
  unfolding enrich_target
  enrich_target-Stores d e now r (compacted_fingerprints fp) db identity absorbed =
      Stores-duplicate x d e db.tables (absorbed fp refl)
  enrich_target-Stores d e now r (usage_events id) db identity absorbed =
      enrich-Stores d e now r id db identity
  enrich_target-Stores d e now r (quota_snapshots id) db identity absorbed =
      enrich-Stores d e now r id db identity

  compare_receipt-Stores :
      (d : String) (e : Event) (now : ℕ) (r : Receipt) (db : Database F W)
      → lookup (d, e.event_id) db.tables.receipts ≡ some r
      → Ensures (Stores x d e db.tables) (compare_receipt x d e now r db)
  unfolding compare_receipt
  compare_receipt-Stores d e now r db found =
      elim (Bool-cases (str_eq r.immutable_digest (immutable_digest x e))) [
        | inr other ↦ rw other (Stores-rejected x d e _ db.tables db.tables refl)
        | inl same ↦
            let identity = (eq_iff r.immutable_digest (immutable_digest x e)).0 same in
            elim (Bool-cases (str_eq r.payload_digest (hash_payload x e.payload))) [
              | inl equal ↦
                  rw (same, equal)
                    (Stores-duplicate x d e db.tables (record {
                      receipt = r;
                      found = found;
                      same_identity = identity;
                      same_payload = inl ((eq_iff _ _).0 equal);
                    }))
              | inr differs ↦
                  rw (same, differs)
                    (if-Ensures (Stores x d e db.tables)
                      (str_eq e.kind "usage_event" && json_is_enrichment x r.payload_json e.payload)
                      _ _ db
                      (λ more. enrich_target-Stores d e now r r.target db identity (λ fp compacted.
                        record {
                          receipt = r;
                          found = found;
                          same_identity = identity;
                          same_payload = inr (record {
                            fingerprint = fp;
                            compacted = compacted;
                            kind = (eq_iff e.kind "usage_event").0 (ground arith);
                            enrichment = ground arith;
                          });
                        }))
                      (λ _. Stores-rejected x d e _ db.tables db.tables refl))
            ]
      ]

  store_after-Stores :
      (d : String) (e : Event) (now : ℕ) (prior : Option Receipt) (db : Database F W)
      → lookup (d, e.event_id) db.tables.receipts ≡ prior
      → Ensures (Stores x d e db.tables) (store_after x d e now prior db)
  unfolding store_after
  store_after-Stores d e now none db found = store_new-Stores x d e now db
  store_after-Stores d e now (some r) db found = compare_receipt-Stores d e now r db found

  -- Where it returns no error, `storeIngestEvent` names the event, touches no receipt of another,
  -- and either leaves a receipt of it, or rejects it and changes nothing; it adds one observation if
  -- the status is accepted and else none.
  pub store_ingest_event-Stores :
      (d : String) (e : Event) (now : ℕ) (db : Database F W)
      → Ensures (Stores x d e db.tables) (store_ingest_event x d e now db)
  unfolding store_ingest_event
  store_ingest_event-Stores d e now db =
      and_then-Ensures _ (Stores x d e db.tables) _ (query _ db) (query-Ensures _ db)
        (λ prior db1 h. rw (← h.1) (store_after-Stores d e now prior db1 (rw h.1 (sym h.0))))
