-- ===== src/Central/Storing/Replay.antt =====
-- A batch that is sent again (internal/store/central.go), as a collector does whose answer was lost.
use text.Mathlib.Text.{◌==◌ as str_eq}
use text.Mathlib.TextEquality.{eq_iff}
use on_watch.Base.{
  ℕ, ◌≡◌, refl, true, false, ◌⊎◌, inl, inr, some, List, [], ◌∷◌, map, String, lookup, Bool-cases,
  string_eq, All,
}
use on_watch.Ingest.{Event, EventResult}
use on_watch.Collector.Upload.{is_settled}
use on_watch.Central.Tables.{Receipt, Tables, Database, pair_eq}
use on_watch.Central.Payload.{Externals, hash_payload, immutable_digest}
use on_watch.Central.Storing.{
  answer, enrich_target, compare_receipt, store_after, store_ingest_event, store_events, has_new,
  store_batch, store_ingest_batch,
}
use on_watch.Central.Storing.Received.{Received, Absorbs}
use on_watch.Central.Storing.Batches.{Answered, Distinct, Takes, store_ingest_batch-Closes}
use on_watch.Central.Storing.Laws.{query_works, transaction_works}

-- The answer to an event that the tables have.
abbrev pub duplicate : Event → EventResult
duplicate e = answer e "duplicate" ""

module _ {F W : Type 0} (x : Externals F W) (d : String) (now : ℕ) (db : Database F W) where
  compare_receipt-duplicate :
      (e : Event) (r : Receipt)
      → r.immutable_digest ≡ immutable_digest x e
      → ((r.payload_digest ≡ hash_payload x e.payload) ⊎ Absorbs x r e)
      → compare_receipt x d e now r db ≡ (some (duplicate e), db)
  unfolding compare_receipt enrich_target
  compare_receipt-duplicate e r identity (inl payload) =
      let same = (eq_iff r.immutable_digest (immutable_digest x e)).1 identity in
      let equal = (eq_iff r.payload_digest (hash_payload x e.payload)).1 payload in
      rw (same, equal) refl
  compare_receipt-duplicate e r identity (inr more) =
      let same = (eq_iff r.immutable_digest (immutable_digest x e)).1 identity in
      let usage = (eq_iff e.kind "usage_event").1 more.kind in
      elim (Bool-cases (str_eq r.payload_digest (hash_payload x e.payload))) [
        | inl equal ↦ rw (same, equal) refl
        | inr differs ↦ rw (same, differs, usage, more.enrichment, more.compacted) refl
      ]

  pub store_ingest_event-duplicate :
      (e : Event)
      → db.faults ≡ []
      → Received x d e db.tables
      → store_ingest_event x d e now db ≡ (some (duplicate e), db)
  unfolding store_ingest_event store_after
  store_ingest_event-duplicate e works h =
      rw (query_works (λ t. lookup (d, e.event_id) t.receipts) db works, h.found)
        (compare_receipt-duplicate e h.receipt h.same_identity h.same_payload)

  store_events-duplicate :
      (es : List Event)
      → db.faults ≡ []
      → All (λ e. Received x d e db.tables) es
      → store_events x d es now db ≡ (some (map duplicate es), db)
  unfolding store_events
  store_events-duplicate [] works h = refl
  store_events-duplicate (e ∷ es) works h =
      rw (store_ingest_event-duplicate e works h.0, store_events-duplicate es works h.1) refl

  has_new-duplicate : (es : List Event) → has_new (map duplicate es) ≡ false
  has_new-duplicate [] = refl
  has_new-duplicate (e ∷ es) = has_new-duplicate es

  pub store_ingest_batch-Received :
      (es : List Event)
      → db.faults ≡ []
      → All (λ e. Received x d e db.tables) es
      → store_ingest_batch x d es now db ≡ (some (map duplicate es), db)
  unfolding store_ingest_batch store_batch
  store_ingest_batch-Received es works h =
      transaction_works (store_batch x d es now) db (map duplicate es) db.tables works
        (rw (store_events-duplicate es works h, has_new-duplicate es) refl)

-- Every result is one by which the server has the event.
abbrev pub AllSettled : List EventResult → Type 0
AllSettled rs = All (λ r. is_settled (EventResult.status r) ≡ true) rs

module _ {F W : Type 0} (x : Externals F W) (d : String) where
  pub Answered-Received :
      (t : Tables F W) (es : List Event) (rs : List EventResult)
      → Answered x d t es rs
      → AllSettled rs
      → All (λ e. Received x d e t) es
  Answered-Received t [] [] h k = tt
  Answered-Received t [] (r ∷ rs) h k = absurd h
  Answered-Received t (e ∷ es) [] h k = absurd h
  Answered-Received t (e ∷ es) (r ∷ rs) h k =
      (elim h.1 [ inl (_, got) ↦ got | inr bad ↦ absurd (cc) ], Answered-Received t es rs h.2 k.1)

  -- If storing a batch of events with different identifiers has answered each of them as accepted,
  -- duplicate or enriched, then storing it again, at any time and while no statement fails, answers
  -- each as a duplicate and leaves the database as it was.
  pub store_ingest_batch_again :
      (es : List Event) (rs : List EventResult) (now later : ℕ) (db db1 : Database F W)
      → Distinct es
      → store_ingest_batch x d es now db ≡ (some rs, db1)
      → AllSettled rs
      → db1.faults ≡ []
      → store_ingest_batch x d es later db1 ≡ (some (map duplicate es), db1)
  store_ingest_batch_again es rs now later db db1 new stored settled works =
      let taken : Takes x d es db.tables rs db1.tables =
        rw stored at (store_ingest_batch-Closes x d es now db new) in
      store_ingest_batch-Received x d later db1 es works
        (Answered-Received db1.tables es rs taken.answered settled)
