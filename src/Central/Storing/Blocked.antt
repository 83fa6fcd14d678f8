-- ===== src/Central/Storing/Blocked.antt =====
-- An event that the mirror tables refuse (`storeIngestEvent` of internal/store/central.go).
use text.Mathlib.Text.{◌==◌ as str_eq}
use on_watch.Base.{
  ℕ, ◌≡◌, refl, ◌∙◌, true, false, Option, none, some, List, ◌∷◌, String, lookup, string_eq,
}
use on_watch.Ingest.{Event, EventResult}
use on_watch.Ingest.Validation.{QuotaSnapshot}
use on_watch.Central.Tables.{Tables, Database, query, pair_eq}
use on_watch.Central.Rows.{active_owner, is_owned_by}
use on_watch.Central.Payload.{Externals, normalize_central_provider}
use on_watch.Central.Storing.{
  Outcome, insert_values, insert_snapshot, on_other, store_snapshot, store_read, store_quota,
  store_new, store_after, store_ingest_event, store_events, store_batch, store_ingest_batch,
}
use on_watch.Central.Storing.Laws.{
  Ensures, Closes, and_then-Ensures, query-Ensures, exec-Ensures, transaction-Closes, Ensures-imp,
}

module _ {F W : Type 0} where
  -- No result.
  abbrev Fails : {A : Type 0} → Option A × Database F W → Type 0
  Fails r = Ensures (λ a t. ⊥) r

  Ensures-anything : {A : Type 0} (r : Option A × Database F W) → Ensures (λ (a : A) t. Unit {0}) r
  Ensures-anything (none, db) = tt
  Ensures-anything (some a, db) = tt

  Closes-Fails :
      {A : Type 0} (s : Tables F W) (r : Option A × Database F W)
      → Closes (λ (a : A) t. ⊥) s r
      → (r.0 ≡ none) × (r.1.tables ≡ s)
  Closes-Fails s (none, db) h = (refl, h)
  Closes-Fails s (some a, db) h = absurd h

  on_other-Fails :
      (call : W → Option W) (db : Database F W)
      → ((w : W) → call w ≡ none)
      → Fails (on_other call db)
  on_other-Fails call db bad =
      Ensures-imp _ (λ (u : Unit {0}) t. ⊥) (on_other call db) (exec-Ensures _ db)
        (λ u t made. let k : none ≡ some t = rw (bad db.tables.other) at made in absurd (cc))

  module _ (x : Externals F W) (d : String) (now : ℕ) (e : Event) (snapshot : QuotaSnapshot F)
      (refuses : (w : W)
        → x.mirror
            (normalize_central_provider x e.provider)
            e.account.external_id
            e.captured_at
            snapshot
            w
          ≡ none) where
    store_snapshot-Fails :
        (db : Database F W)
        → Fails (store_snapshot x (normalize_central_provider x e.provider) e now snapshot db)
    unfolding store_snapshot
    store_snapshot-Fails db =
        let provider = normalize_central_provider x e.provider in
        and_then-Ensures (λ (id : ℕ) t. Unit {0}) (λ (o : Outcome) t. ⊥) _
          (insert_snapshot provider e now db) (Ensures-anything _)
          (λ id db1 h.
            and_then-Ensures (λ (u : Unit {0}) t. Unit {0}) (λ (o : Outcome) t. ⊥) _
              (insert_values id snapshot.metrics db1) (Ensures-anything _)
              (λ u db2 g.
                and_then-Ensures (λ (u : Unit {0}) t. ⊥) (λ (o : Outcome) t. ⊥) _ (on_other _ db2)
                  (on_other-Fails _ db2 refuses) (λ u db3 k. absurd k)))

    store_quota-Fails :
        (s : Tables F W) (db : Database F W)
        → is_owned_by d
            (active_owner (normalize_central_provider x e.provider) e.account.external_id s.owners)
          ≡ true
        → x.snapshot e.payload ≡ some snapshot
        → db.tables ≡ s
        → Fails (store_quota x d e now db)
    unfolding store_quota store_read
    store_quota-Fails s db mine read same =
        and_then-Ensures _ (λ (o : Outcome) t. ⊥) _ (query _ db) (query-Ensures _ db)
          (λ owner db1 k. rw (k.0, same, mine, read) (store_snapshot-Fails db1))

    store_ingest_event-Fails :
        (s : Tables F W) (db : Database F W)
        → lookup (d, e.event_id) s.receipts ≡ none
        → str_eq e.kind "usage_event" ≡ false
        → is_owned_by d
            (active_owner (normalize_central_provider x e.provider) e.account.external_id s.owners)
          ≡ true
        → x.snapshot e.payload ≡ some snapshot
        → db.tables ≡ s
        → Fails (store_ingest_event x d e now db)
    unfolding store_ingest_event store_after store_new
    store_ingest_event-Fails s db new kind mine read same =
        and_then-Ensures _ (λ (r : EventResult) t. ⊥) _ (query _ db) (query-Ensures _ db)
          (λ prior db1 k.
            rw (k.0, same, new, kind)
              (and_then-Ensures (λ (o : Outcome) t. ⊥) (λ (r : EventResult) t. ⊥) _
                (store_quota x d e now db1) (store_quota-Fails s db1 mine read (k.1 ∙ same))
                (λ o db2 g. absurd g)))

    -- A batch fails, and changes nothing in the tables, whatever follows in it, if its first event is
    -- a quota snapshot of an account that the device owns, has no receipt, and is one for which
    -- `mirrorCentralQuotaSnapshot` returns an error, whatever its tables hold.
    pub store_ingest_batch_refused :
        (es : List Event) (db : Database F W)
        → lookup (d, e.event_id) db.tables.receipts ≡ none
        → str_eq e.kind "usage_event" ≡ false
        → is_owned_by d (
            active_owner
              (normalize_central_provider x e.provider)
              e.account.external_id
              db.tables.owners)
          ≡ true
        → x.snapshot e.payload ≡ some snapshot
        → let r = store_ingest_batch x d (e ∷ es) now db in (r.0 ≡ none) × (r.1.tables ≡ db.tables)
    unfolding store_ingest_batch store_batch store_events
    store_ingest_batch_refused es db new kind mine read = Closes-Fails db.tables _ (
        transaction-Closes (λ (rs : List EventResult) t. ⊥) (store_batch x d (e ∷ es) now) db
          (λ db1 same.
            and_then-Ensures (λ (rs : List EventResult) t. ⊥) (λ (rs : List EventResult) t. ⊥) _
              (store_events x d (e ∷ es) now db1)
              (and_then-Ensures (λ (r : EventResult) t. ⊥) (λ (rs : List EventResult) t. ⊥) _
                (store_ingest_event x d e now db1)
                (store_ingest_event-Fails db.tables db1 new kind mine read same)
                (λ r db2 g. absurd g))
              (λ rs db2 g. absurd g)))
