-- ===== src/Central/Storing/Batches.antt =====
-- What `StoreIngestBatch` leaves for the events of a batch (internal/store/central.go).
use on_watch.Base.{
  ℕ, ◌+◌, ◌≡◌, ◌≢◌, refl, sym, ap, ◌∙◌, true, false, ◌⊎◌, inl, inr, List, [], ◌∷◌, String, arith,
  if◌then◌else◌, lookup, Option-cases, string_eq,
}
use text.Mathlib.TextEquality.{eq_iff}
use on_watch.Ingest.{Event, EventResult, has_seen, has_duplicate}
use on_watch.Collector.Upload.{is_settled}
use on_watch.Central.Tables.{Tables, Database, pure, pair_eq, and_then}
use on_watch.Central.Payload.{Externals}
use on_watch.Central.Storing.{
  accept_at, store_ingest_event, store_events, has_new, store_batch, store_ingest_batch,
}
use on_watch.Central.Storing.Growth.{fresh, observations}
use on_watch.Central.Storing.Received.{Received, Stores}
use on_watch.Central.Storing.Enriched.{store_ingest_event-Stores}
use on_watch.Central.Storing.Laws.{
  Ensures, Closes, transaction-Closes, and_then-Ensures, Ensures-imp, exec-Ensures, if-Ensures,
}

-- How many results are accepted.
pub accepted_count : List EventResult → ℕ
accepted_count [] = 0
accepted_count (r ∷ rs) = fresh r.status + accepted_count rs

-- No event of a list has this identifier.
abbrev pub Lacks : String → List Event → Type 0
Lacks id [] = Unit
Lacks id (e ∷ es) = (e.event_id ≢ id) × Lacks id es

Lacks-seen :
    (id : String) (seen : List String) (es : List Event)
    → has_seen id seen ≡ true
    → has_duplicate seen es ≡ false
    → Lacks id es
Lacks-seen id seen [] old h = tt
Lacks-seen id seen (e ∷ es) old h = (
  (λ same. let old' : has_seen e.event_id seen ≡ true = rw same old in absurd (ground arith)),
  Lacks-seen id (e.event_id ∷ seen) es (ground (arith, old)) (ground (arith, h)),
)

abbrev pub Distinct : List Event → Type 0
Distinct [] = Unit
Distinct (e ∷ es) = Lacks e.event_id es × Distinct es

has_duplicate-Distinct :
    (seen : List String) (es : List Event) → has_duplicate seen es ≡ false → Distinct es
has_duplicate-Distinct seen [] h = tt
has_duplicate-Distinct seen (e ∷ es) h =
    let rest : has_duplicate (e.event_id ∷ seen) es ≡ false = ground arith in
    (
      Lacks-seen e.event_id (e.event_id ∷ seen) es (ground (arith, eq_iff e.event_id e.event_id))
          rest,
      has_duplicate-Distinct (e.event_id ∷ seen) es rest,
    )

-- What the check of `DecodeBatch` gives.
pub no_duplicate-Distinct : (es : List Event) → has_duplicate [] es ≡ false → Distinct es
no_duplicate-Distinct es = has_duplicate-Distinct [] es

module _ {F W : Type 0} (x : Externals F W) (d : String) where
  -- Each event has its own result, in order; it is received, or rejected.
  abbrev pub Answered : Tables F W → List Event → List EventResult → Type 0
  Answered t [] [] = Unit
  Answered t [] (r ∷ rs) = ⊥
  Answered t (e ∷ es) [] = ⊥
  Answered t (e ∷ es) (r ∷ rs) =
      (r.event_id ≡ e.event_id)
      × (((is_settled r.status ≡ true) × Received x d e t) ⊎ (r.status ≡ "rejected"))
      × Answered t es rs

  -- What a sequence of events leaves.
  record Serves (es : List Event) (s : Tables F W) (rs : List EventResult) (t : Tables F W)
      : Type 0 where
    answered : Answered t es rs
    counted : observations t ≡ accepted_count rs + observations s
    spared : (id : String) → Lacks id es → lookup (d, id) t.receipts ≡ lookup (d, id) s.receipts

  Received-kept :
      (e : Event) (s t : Tables F W)
      → lookup (d, e.event_id) t.receipts ≡ lookup (d, e.event_id) s.receipts
      → Received x d e s
      → Received x d e t
  Received-kept e s t same h = record {
    receipt = h.receipt;
    found = same ∙ h.found;
    same_identity = h.same_identity;
    same_payload = h.same_payload;
  }

  Serves-cons :
      (e : Event) (es : List Event) (r : EventResult) (rs : List EventResult) (s m t : Tables F W)
      → Lacks e.event_id es
      → Stores x d e s r m
      → Serves es m rs t
      → Serves (e ∷ es) s (r ∷ rs) t
  unfolding accepted_count
  Serves-cons e es r rs s m t new h k = record {
    answered = (
      h.named,
      elim h.outcome [
        | inl (fine, got) ↦ inl (fine, Received-kept e m t (k.spared e.event_id new) got)
        | inr (bad, _) ↦ inr bad
      ],
      k.answered,
    );
    counted = omega (arith, h.counted, k.counted);
    spared = λ id lacks.
        k.spared id lacks.1 ∙ h.others (d, id) (λ same. lacks.0 (sym (ap (λ p. p.1) same)));
  }

  store_events-Serves :
      (es : List Event) (now : ℕ) (db : Database F W)
      → Distinct es
      → Ensures (λ rs t. Serves es db.tables rs t) (store_events x d es now db)
  unfolding store_events accepted_count
  store_events-Serves [] now db new = record {
    answered = tt;
    counted = omega arith;
    spared = λ id lacks. refl;
  }
  store_events-Serves (e ∷ es) now db new =
      and_then-Ensures (Stores x d e db.tables) (λ rs t. Serves (e ∷ es) db.tables rs t) _
        (store_ingest_event x d e now db) (store_ingest_event-Stores x d e now db)
        (λ r db1 h.
          and_then-Ensures (λ rs t. Serves es db1.tables rs t)
            (λ rs t. Serves (e ∷ es) db.tables rs t) _ (store_events x d es now db1)
            (store_events-Serves es now db1 new.1)
            (λ rs db2 k. Serves-cons e es r rs db.tables db1.tables db2.tables new.0 h k))

  Answered-kept :
      (s t : Tables F W) (es : List Event) (rs : List EventResult)
      → t.receipts ≡ s.receipts
      → Answered s es rs
      → Answered t es rs
  Answered-kept s t [] [] same h = tt
  Answered-kept s t [] (r ∷ rs) same h = h
  Answered-kept s t (e ∷ es) [] same h = h
  Answered-kept s t (e ∷ es) (r ∷ rs) same h = (
    h.0,
    elim h.1 [
      | inl (fine, got) ↦ inl (fine, Received-kept e s t (ap (lookup (d, e.event_id)) same) got)
      | inr bad ↦ inr bad
    ],
    Answered-kept s t es rs same h.2,
  )

  accept_at-same :
      (now : ℕ) (db : Database F W)
      → Ensures
          (λ (u : Unit {0}) t.
            (t.receipts ≡ db.tables.receipts) × (observations t ≡ observations db.tables))
          (accept_at d now db)
  unfolding accept_at
  accept_at-same now db =
      Ensures-imp _
        (λ (u : Unit {0}) t.
          (t.receipts ≡ db.tables.receipts) × (observations t ≡ observations db.tables))
        (accept_at d now db) (exec-Ensures _ db)
        (λ u t h. elim (Option-cases (lookup d db.tables.devices)) [
          | inl missing ↦ ground arith
          | inr (row, there) ↦ ground arith
        ])

  -- The results of a batch, and the tables that it leaves.
  pub record Takes (es : List Event) (s : Tables F W) (rs : List EventResult) (t : Tables F W)
      : Type 0 where
    pub answered : Answered t es rs
    pub counted : observations t ≡ accepted_count rs + observations s

  accept-Takes :
      (es : List Event) (now : ℕ) (s : Tables F W) (rs : List EventResult) (db : Database F W)
      → Serves es s rs db.tables
      → Ensures (Takes es s) (
          and_then
            (λ (u : Unit {0}). pure rs)
            ((if has_new rs then accept_at d now else pure tt) db))
  accept-Takes es now s rs db h =
      and_then-Ensures
        (λ (u : Unit {0}) t.
          (t.receipts ≡ db.tables.receipts) × (observations t ≡ observations db.tables))
        (Takes es s) (λ u. pure rs) _
        (if-Ensures
          (λ (u : Unit {0}) t.
            (t.receipts ≡ db.tables.receipts) × (observations t ≡ observations db.tables))
          (has_new rs) _ _ db (λ _. accept_at-same now db) (λ _. (refl, refl)))
        (λ u db1 k. record {
          answered = Answered-kept db.tables db1.tables es rs k.0 h.answered;
          counted = k.1 ∙ h.counted;
        })

  -- A batch of events with different identifiers is stored as a whole or not at all: on an error the
  -- tables are as before, and else there is a result for each event, in order, by which the event
  -- has a receipt or is rejected, and the usage events and quota snapshots have grown by exactly as
  -- many as are accepted.
  pub store_ingest_batch-Closes :
      (es : List Event) (now : ℕ) (db : Database F W)
      → Distinct es
      → Closes (Takes es db.tables) db.tables (store_ingest_batch x d es now db)
  unfolding store_ingest_batch store_batch
  store_ingest_batch-Closes es now db new =
      transaction-Closes (Takes es db.tables) (store_batch x d es now) db (λ db1 same.
        and_then-Ensures (Serves es db.tables) (Takes es db.tables) _ (store_events x d es now db1)
          (rw (← same) (store_events-Serves es now db1 new))
          (λ rs db2 h. accept-Takes es now db.tables rs db2 h))
