-- ===== src/Central/Storing/Received.antt =====
-- What `storeIngestEvent` leaves for each event (internal/store/central.go): a receipt where it does
-- not reject, one more observation where it accepts, and nothing where it rejects.
use on_watch.Base.{
  ℕ, ◌+◌, ◌≡◌, ◌≢◌, refl, sym, ap, ◌∙◌, true, ◌⊎◌, inl, inr, some, String, arith, lookup, insert,
  lookup-insert_ne, lookup-insert_self, Bool-cases, Option-cases, string_eq,
}
use on_watch.Ingest.{Event, EventResult}
use on_watch.Collector.Upload.{is_settled}
use on_watch.Central.Tables.{Target, compacted_fingerprints, Receipt, Tables, Database, pair_eq}
use on_watch.Central.Rows.{has_provenance}
use on_watch.Central.Payload.{Externals, hash_payload, immutable_digest, json_is_enrichment}
use on_watch.Central.Storing.{
  Outcome, refused, recorded, answer, insert_receipt, insert_provenance, receipt_of, settle_event,
  store_new,
}
use on_watch.Central.Storing.Growth.{Grows, Leads, fresh, observations, store_outcome-Leads}
use on_watch.Central.Storing.Laws.{Ensures, and_then-Ensures, Ensures-imp, exec-Ensures}

module _ {F W : Type 0} (x : Externals F W) where
  -- The receipt absorbs what the event says beyond it: the row is compacted.
  pub record Absorbs (r : Receipt) (e : Event) : Type 0 where
    pub fingerprint : String
    pub compacted : r.target ≡ compacted_fingerprints fingerprint
    pub kind : e.kind ≡ "usage_event"
    pub enrichment : json_is_enrichment x r.payload_json e.payload ≡ true

  -- The tables have taken this event from this device.
  pub record Received (d : String) (e : Event) (t : Tables F W) : Type 0 where
    pub receipt : Receipt
    pub found : lookup (d, e.event_id) t.receipts ≡ some receipt
    pub same_identity : receipt.immutable_digest ≡ immutable_digest x e
    pub same_payload : (receipt.payload_digest ≡ hash_payload x e.payload) ⊎ Absorbs receipt e

  -- The receipts of all others stay.
  abbrev pub Spares : String → String → Tables F W → Tables F W → Type 0
  Spares d id before after =
      (key : String × String)
      → key ≢ (d, id)
      → lookup key after.receipts ≡ lookup key before.receipts

  -- What a result tells of the tables before and after.
  pub record Stores (d : String) (e : Event) (before : Tables F W) (result : EventResult)
      (after : Tables F W) : Type 0 where
    pub named : result.event_id ≡ e.event_id
    pub others : Spares d e.event_id before after
    pub owners : after.owners ≡ before.owners
    pub devices : after.devices ≡ before.devices
    pub counted : observations after ≡ fresh result.status + observations before
    pub outcome :
        ((is_settled result.status ≡ true) × Received d e after)
        ⊎ ((result.status ≡ "rejected") × (after ≡ before))

  pub Stores-rejected :
      (d : String) (e : Event) (code : String) (s t : Tables F W)
      → t ≡ s
      → Stores d e s (answer e "rejected" code) t
  Stores-rejected d e code s t h = rw h (record {
    named = refl;
    others = λ key other. refl;
    owners = refl;
    devices = refl;
    counted = omega arith;
    outcome = inr (refl, refl);
  })

  pub Stores-duplicate :
      (d : String) (e : Event) (t : Tables F W)
      → Received d e t
      → Stores d e t (answer e "duplicate" "") t
  Stores-duplicate d e t h = record {
    named = refl;
    others = λ key other. refl;
    owners = refl;
    devices = refl;
    counted = omega arith;
    outcome = inl (refl, h);
  }

  -- A receipt is written, and no other of the tables that count.
  pub record Adds (d : String) (e : Event) (r : Receipt) (t u : Tables F W) : Type 0 where
    pub receipts : u.receipts ≡ insert (d, e.event_id) r t.receipts
    pub owners : u.owners ≡ t.owners
    pub devices : u.devices ≡ t.devices
    pub counted : observations u ≡ observations t

  pub Adds-Stores :
      (d : String) (e : Event) (s t u : Tables F W) (r : Receipt) (status : String)
      → is_settled status ≡ true
      → Grows s t (fresh status)
      → r.immutable_digest ≡ immutable_digest x e
      → r.payload_digest ≡ hash_payload x e.payload
      → Adds d e r t u
      → Stores d e s (answer e status "") u
  Adds-Stores d e s t u r status fine g identity payload h = record {
    named = refl;
    others = λ key other. rw h.receipts (
        lookup-insert_ne (d, e.event_id) key r t.receipts (λ same. other (sym same))
        ∙ ap (lookup key) g.receipts);
    owners = h.owners ∙ g.owners;
    devices = h.devices ∙ g.devices;
    counted = h.counted ∙ g.more;
    outcome = inl (
      fine,
      record {
        receipt = r;
        found = rw h.receipts (lookup-insert_self (d, e.event_id) r t.receipts);
        same_identity = identity;
        same_payload = inl payload;
      },
    );
  }

  insert_receipt-Adds :
      (d : String) (e : Event) (r : Receipt) (db : Database F W)
      → Ensures (λ (u : Unit {0}) t. Adds d e r db.tables t) (insert_receipt d e r db)
  unfolding insert_receipt
  insert_receipt-Adds d e r db =
      Ensures-imp _ (λ (u : Unit {0}) t. Adds d e r db.tables t) (insert_receipt d e r db)
        (exec-Ensures _ db)
        (λ u t h. elim (Option-cases (lookup (d, e.event_id) db.tables.receipts)) [
          | inl new ↦ elim (Option-cases (lookup d db.tables.devices)) [
            | inl missing ↦ ground arith
            | inr (row, found) ↦ ground arith
          ]
          | inr (r', old) ↦ ground arith
        ])

  insert_provenance-Adds :
      (d : String) (e : Event) (r : Receipt) (t : Tables F W) (target : Target) (db : Database F W)
      → Adds d e r t db.tables
      → Ensures (λ (u : Unit {0}) t'. Adds d e r t t') (insert_provenance d e target db)
  unfolding insert_provenance
  insert_provenance-Adds d e r t target db g =
      Ensures-imp _ (λ (u : Unit {0}) t'. Adds d e r t t') (insert_provenance d e target db)
        (exec-Ensures _ db)
        (λ u t' h. elim (Bool-cases (has_provenance d e.event_id db.tables.provenance)) [
          | inl old ↦ ground arith
          | inr new ↦ elim (Option-cases (lookup d db.tables.devices)) [
            | inl missing ↦ ground arith
            | inr (row, found) ↦ ground arith
          ]
        ])

  settle_event-Stores :
      (d : String) (e : Event) (now : ℕ) (o : Outcome) (s : Tables F W) (db : Database F W)
      → Leads s o db.tables
      → Ensures (Stores d e s) (settle_event x d e now o db)
  unfolding settle_event
  settle_event-Stores d e now (refused code) s db h = Stores-rejected d e code s db.tables h
  settle_event-Stores d e now (recorded status target) s db h =
      let r = receipt_of x e now status target in
      and_then-Ensures (λ (u : Unit {0}) t. Adds d e r db.tables t) (Stores d e s) _ _
        (and_then-Ensures (λ (u : Unit {0}) t. Adds d e r db.tables t)
          (λ (u : Unit {0}) t. Adds d e r db.tables t) (λ _. insert_provenance d e target)
          (insert_receipt d e r db) (insert_receipt-Adds d e r db)
          (λ u db1 g. insert_provenance-Adds d e r db.tables target db1 g))
        (λ u db2 g. Adds-Stores d e s db.tables db2.tables r status h.0 h.1 refl refl g)

  pub store_new-Stores :
      (d : String) (e : Event) (now : ℕ) (db : Database F W)
      → Ensures (Stores d e db.tables) (store_new x d e now db)
  unfolding store_new
  store_new-Stores d e now db =
      and_then-Ensures (Leads db.tables) (Stores d e db.tables) (settle_event x d e now) _
        (store_outcome-Leads x d e now db)
        (λ o db1 h. settle_event-Stores d e now o db.tables db1 h)
