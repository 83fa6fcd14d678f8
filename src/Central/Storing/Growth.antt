-- ===== src/Central/Storing/Growth.antt =====
-- How `storeIngestEvent` changes the tables of the observations (internal/store/central.go).
use mathlib.Core.Option
use native.Mathlib.Nat.{add-zero}
use Prim.Native.String.{◌++◌ as ◌<>◌}
use text.Mathlib.Text.{◌==◌ as str_eq}
use on_watch.Base.{
  ℕ, ◌+◌, ◌≡◌, refl, ap, ◌∙◌, Bool, true, false, Option, none, some, List, [], ◌∷◌, map, String,
  arith, if◌then◌else◌, length, length-append, length-map, string_eq,
}
use on_watch.Ingest.{Event, has_seen}
use on_watch.Ingest.Validation.{QuotaMetric, QuotaSnapshot}
use on_watch.Collector.Upload.{is_settled}
use on_watch.Central.Tables.{
  compacted_fingerprints, UsageEvent, Metadata, Tables, Database, or_fail, query, pair_eq,
}
use on_watch.Central.Rows.{add_value, is_owned_by, find_usage}
use on_watch.Central.Payload.{Externals, normalize_central_provider, fits}
use on_watch.Central.Storing.{
  Outcome, refused, recorded, is_ignored, insert_usage, insert_values, insert_snapshot,
  after_insert, after_known, on_other, store_usage_row, store_usage, store_parsed, store_read,
  store_snapshot, store_quota,
}
use on_watch.Central.Storing.Laws.{
  Ensures, and_then-Ensures, Ensures-imp, query-Ensures, exec-Ensures, if-Ensures,
}

abbrev added : Option ℕ → ℕ
added none = 0
added (some id) = 1

-- 1 for a new observation.
abbrev pub fresh : String → ℕ
fresh status = if str_eq status "accepted" then 1 else 0

module _ {F W : Type 0} where
  -- The observations: usage events and quota snapshots.
  abbrev pub observations : Tables F W → ℕ
  observations t = length t.usage + length t.snapshots

  -- A change that adds so many observations and leaves receipts, owners and devices.
  pub record Grows (before after : Tables F W) (n : ℕ) : Type 0 where
    pub receipts : after.receipts ≡ before.receipts
    pub owners : after.owners ≡ before.owners
    pub devices : after.devices ≡ before.devices
    pub more : observations after ≡ n + observations before

  Grows-same : (s t : Tables F W) → t ≡ s → Grows s t 0
  Grows-same s t e = record {
    receipts = ap (λ t. Tables.receipts t) e;
    owners = ap (λ t. Tables.owners t) e;
    devices = ap (λ t. Tables.devices t) e;
    more = omega (arith, ap observations e);
  }

  Grows-trans : (s t u : Tables F W) (m n : ℕ) → Grows s t m → Grows t u n → Grows s u (n + m)
  Grows-trans s t u m n h k = record {
    receipts = k.receipts ∙ h.receipts;
    owners = k.owners ∙ h.owners;
    devices = k.devices ∙ h.devices;
    more = omega (arith, h.more, k.more);
  }

  other-Grows :
      (s t : Tables F W) (o : Option W)
      → Option.map (λ other. record s { other = other }) o ≡ some t
      → Grows s t 0
  other-Grows s t none h = absurd (cc)
  other-Grows s t (some other) h = ground arith

  values-Grows :
      (s t : Tables F W) (id : ℕ) (metric : QuotaMetric F) (taken : Bool)
      → (if taken
          then none
          else some (record s { snapshots = map (add_value id metric) s.snapshots }))
        ≡ some t
      → Grows s t 0
  values-Grows s t id metric true h = absurd (cc)
  values-Grows s t id metric false h = ground (arith, length-map (add_value id metric) s.snapshots)

  on_other-Grows :
      (call : W → Option W) (db : Database F W)
      → Ensures (λ (u : Unit {0}) t. Grows db.tables t 0) (on_other call db)
  on_other-Grows call db =
      Ensures-imp _ (λ (u : Unit {0}) t. Grows db.tables t 0) (on_other call db)
        (exec-Ensures (λ t. Option.map (λ other. record t { other = other }) (call t.other)) db)
        (λ u t h. other-Grows db.tables t (call db.tables.other) h)

  insert_usage-Grows :
      (e : UsageEvent F) (m : Metadata) (now : ℕ) (db : Database F W)
      → Ensures (λ o t. Grows db.tables t (added o)) (insert_usage e m now db)
  unfolding insert_usage
  insert_usage-Grows e m now db =
      and_then-Ensures _ (λ o t. Grows db.tables t (added o)) _ (query (λ t. t) db)
        (query-Ensures (λ t. t) db)
        (λ t db' h.
          if-Ensures (λ o t. Grows db.tables t (added o)) (is_ignored e.fingerprint t) _ _ db'
            (λ _. Grows-same _ _ h.1)
            (λ _. rw h.0 (record {
              receipts = refl;
              owners = refl;
              devices = refl;
              more = omega (arith, length-append {0});
            })))

  insert_values-Grows :
      (id : ℕ) (metrics : List (QuotaMetric F)) (db : Database F W)
      → Ensures (λ (u : Unit {0}) t. Grows db.tables t 0) (insert_values id metrics db)
  unfolding insert_values
  insert_values-Grows id [] db = Grows-same _ _ refl
  insert_values-Grows id (metric ∷ metrics) db =
      and_then-Ensures (λ (u : Unit {0}) t. Grows db.tables t 0)
        (λ (u : Unit {0}) t. Grows db.tables t 0) (λ _. insert_values id metrics) _
        (Ensures-imp _ (λ (u : Unit {0}) t. Grows db.tables t 0) _ (exec-Ensures _ db)
          (λ u t h. values-Grows db.tables t id metric _ h))
        (λ u db' h.
          Ensures-imp _ (λ (u : Unit {0}) t. Grows db.tables t 0) _
            (insert_values-Grows id metrics db') (λ _ t k. Grows-trans _ _ _ 0 0 h k))

  insert_snapshot-Grows :
      (provider : String) (e : Event) (now : ℕ) (db : Database F W)
      → Ensures (λ (id : ℕ) t. Grows db.tables t 1) (insert_snapshot provider e now db)
  unfolding insert_snapshot
  insert_snapshot-Grows provider e now db =
      and_then-Ensures _ (λ (id : ℕ) t. Grows db.tables t 1) _ (query (λ t. t) db)
        (query-Ensures (λ t. t) db)
        (λ t db' h. rw h.0 (record {
          receipts = refl;
          owners = refl;
          devices = refl;
          more = omega (arith, length-append {0});
        }))

  -- What an outcome tells of the tables.
  abbrev pub Leads : Tables F W → Outcome → Tables F W → Type 0
  Leads s (refused code) t = t ≡ s
  Leads s (recorded status target) t = (is_settled status ≡ true) × Grows s t (fresh status)

  after_insert-Leads :
      (s : Tables F W) (fingerprint : String) (o : Option ℕ) (db : Database F W)
      → Grows s db.tables (added o)
      → Ensures (Leads s) (after_insert fingerprint o db)
  unfolding after_insert
  after_insert-Leads s fingerprint (some id) db h = (refl, h)
  after_insert-Leads s fingerprint none db h =
      and_then-Ensures _ (Leads s) _ (query (λ t. find_usage fingerprint t.usage) db)
        (query-Ensures (λ t. find_usage fingerprint t.usage) db)
        (λ known db1 e. on_known known db1 (rw e.1 h))
    where
      on_compacted :
          (compacted : Bool) (db2 : Database F W)
          → Grows s db2.tables 0
          → Ensures (Leads s) (
              or_fail
                (if compacted
                  then some (recorded "duplicate" (compacted_fingerprints fingerprint))
                  else none)
                db2)
      on_compacted true db2 g = (refl, g)
      on_compacted false db2 g = tt

      on_known :
          (known : Option ℕ) (db1 : Database F W)
          → Grows s db1.tables 0
          → Ensures (Leads s) (after_known fingerprint known db1)
      on_known (some id) db1 g = (refl, g)
      on_known none db1 g =
          and_then-Ensures _ (Leads s) _ (query (λ t. has_seen fingerprint t.compacted) db1)
            (query-Ensures (λ t. has_seen fingerprint t.compacted) db1)
            (λ compacted db2 e. on_compacted compacted db2 (rw e.1 g))

  -- After a part that has added `n`.
  Grows-from :
      {A : Type 0} (s : Tables F W) (n : ℕ) (k : A → ℕ) (db : Database F W)
      (r : Option A × Database F W)
      → Grows s db.tables n
      → Ensures (λ a t. Grows db.tables t (k a)) r
      → Ensures (λ a t. Grows s t (k a + n)) r
  Grows-from s n k db r h next =
      Ensures-imp _ (λ a t. Grows s t (k a + n)) r next
        (λ a t g. Grows-trans s db.tables t n (k a) h g)

  store_usage_row-Leads :
      (x : Externals F W) (usage : UsageEvent F) (now : ℕ) (db : Database F W)
      → Ensures (Leads db.tables) (store_usage_row x usage now db)
  unfolding store_usage_row
  store_usage_row-Leads x usage now db =
      and_then-Ensures (λ (u : Unit {0}) t. Grows db.tables t 0) (Leads db.tables) _
        (on_other (x.telemetry usage) db) (on_other-Grows (x.telemetry usage) db)
        (λ u db' h.
          and_then-Ensures (λ o t. Grows db.tables t (added o + 0)) (Leads db.tables)
            (after_insert usage.fingerprint) (insert_usage usage (x.metadata usage) now db')
            (Grows-from db.tables 0 added db' _ h
              (insert_usage-Grows usage (x.metadata usage) now db'))
            (λ o db'' g.
              after_insert-Leads db.tables usage.fingerprint o db'' (rw (add-zero (added o)) at g)))

  store_snapshot-Leads :
      (x : Externals F W) (provider : String) (e : Event) (now : ℕ) (snapshot : QuotaSnapshot F)
      (db : Database F W)
      → Ensures (Leads db.tables) (store_snapshot x provider e now snapshot db)
  unfolding store_snapshot
  store_snapshot-Leads x provider e now snapshot db =
      and_then-Ensures (λ (id : ℕ) t. Grows db.tables t 1) (Leads db.tables) _
        (insert_snapshot provider e now db) (insert_snapshot-Grows provider e now db)
        (λ id db1 h.
          and_then-Ensures (λ (u : Unit {0}) t. Grows db.tables t (0 + 1)) (Leads db.tables) _
            (insert_values id snapshot.metrics db1)
            (Grows-from db.tables 1 (λ u. 0) db1 _ h (insert_values-Grows id snapshot.metrics db1))
            (λ u db2 g.
              and_then-Ensures (λ (u : Unit {0}) t. Grows db.tables t (0 + (0 + 1)))
                (Leads db.tables) _ (on_other _ db2)
                (Grows-from db.tables (0 + 1) (λ u. 0) db2 _ g (on_other-Grows _ db2))
                (λ u db3 k. (refl, k))))

  store_parsed-Leads :
      (x : Externals F W) (e : Event) (now : ℕ) (parsed : Option (UsageEvent F)) (db : Database F W)
      → Ensures (Leads db.tables) (store_parsed x e now parsed db)
  unfolding store_parsed
  store_parsed-Leads x e now none db = refl
  store_parsed-Leads x e now (some usage) db =
      if-Ensures (Leads db.tables) (fits x usage e) _ _ db
        (λ _. store_usage_row-Leads x usage now db) (λ _. refl)

  store_usage-Leads :
      (x : Externals F W) (d : String) (e : Event) (now : ℕ) (db : Database F W)
      → Ensures (Leads db.tables) (store_usage x d e now db)
  unfolding store_usage
  store_usage-Leads x d e now db =
      store_parsed-Leads x e now (x.parse_usage e.payload ("device:" <> d)) db

  store_read-Leads :
      (x : Externals F W) (provider : String) (e : Event) (now : ℕ)
      (read : Option (QuotaSnapshot F)) (db : Database F W)
      → Ensures (Leads db.tables) (store_read x provider e now read db)
  unfolding store_read
  store_read-Leads x provider e now none db = refl
  store_read-Leads x provider e now (some snapshot) db =
      store_snapshot-Leads x provider e now snapshot db

  store_quota-Leads :
      (x : Externals F W) (d : String) (e : Event) (now : ℕ) (db : Database F W)
      → Ensures (Leads db.tables) (store_quota x d e now db)
  unfolding store_quota
  store_quota-Leads x d e now db =
      let provider = normalize_central_provider x e.provider in
      and_then-Ensures _ (Leads db.tables) _ (query _ db) (query-Ensures _ db) (λ owner db' h.
        if-Ensures (Leads db.tables) (is_owned_by d owner) _ _ db'
          (λ _. rw (← h.1) (store_read-Leads x provider e now (x.snapshot e.payload) db'))
          (λ _. h.1))

  pub store_outcome-Leads :
      (x : Externals F W) (d : String) (e : Event) (now : ℕ) (db : Database F W)
      → Ensures (Leads db.tables) (
          (if str_eq e.kind "usage_event" then store_usage x d e now else store_quota x d e now) db)
  store_outcome-Leads x d e now db =
      if-Ensures (Leads db.tables) (str_eq e.kind "usage_event") _ _ db
        (λ _. store_usage-Leads x d e now db) (λ _. store_quota-Leads x d e now db)
