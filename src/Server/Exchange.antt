-- ===== src/Server/Exchange.antt =====
-- A collector and the ingest server together: `uploadOnce` of internal/collector/runtime.go over
-- the batch handler of internal/ingestserver/server.go.
use mathlib.Core.Path.{subst}
use Prim.Native.String.{len, slice}
use text.Mathlib.Text.{◌==◌ as str_eq, starts_with}
use on_watch.Base.{
  ℕ, ◌≡◌, refl, ◌∙◌, Bool, false, ◌⊎◌, inl, inr, Option, none, some, List, [], ◌∷◌, String,
  Bool-cases, Option-cases, string_eq, length, ltb, arith, ◌+◌, ◌==◌, ◌||◌,
}
use on_watch.Ingest.{Event, EventResult, Batch, has_duplicate}
use on_watch.Ingest.Decoding.{
  DecodeError, request_size, invalid_json, decoded, failed, check_batch, decode_batch,
  max_request_bytes,
}
use on_watch.Ingest.Validation.{Payloads}
use on_watch.Collector.Upload.{BatchResponse}
use on_watch.Central.Tables.{Tables, Database, or_fail}
use on_watch.Central.Payload.{Externals}
use on_watch.Central.Storing.Laws.{Ensures, Closes, if-Ensures}
use on_watch.Central.Storing.Batches.{
  Distinct, no_duplicate-Distinct, Answered, Takes, store_ingest_batch-Closes,
}
use on_watch.Central.Devices.{Device, authenticate_device}
use on_watch.Central.Devices.Credentials.{Known, authenticate_device-Known}
use on_watch.Server.{
  Server, Request, Response, http_error, http_ok, limited, tally, tally_one, valid_events,
  invalid_count, authenticate, respond, ingest_events, authorized, handle_decoded, handle_body,
  batches, content_type_json,
}
use on_watch.Server.Answers.{valid_events-Distinct, merge-Answered}

check_batch_distinct :
    (now : ℕ) (batch : Batch) → check_batch now batch ≡ none → has_duplicate [] batch.events ≡ false
unfolding check_batch
check_batch_distinct now batch fine = elim (Bool-cases (has_duplicate [] batch.events)) [
  | inr new ↦ new
  | inl twice ↦ ground arith
]

check_batch-cases :
    (now : ℕ) (batch : Batch)
    → ((e : DecodeError) × (check_batch now batch ≡ some e))
      ⊎ ((check_batch now batch ≡ none) × Distinct batch.events)
check_batch-cases now batch = elim (Option-cases (check_batch now batch)) [
  | inl fine ↦ inr (fine, no_duplicate-Distinct batch.events (check_batch_distinct now batch fine))
  | inr (e, bad) ↦ inl (e, bad)
]

module _ {F W : Type 0} where
  tally_one-database :
      (status : String) (s : Server F W) → (tally_one status s).database ≡ s.database
  tally_one-database status s = ground arith

  tally-database : (rs : List EventResult) (s : Server F W) → (tally rs s).database ≡ s.database
  unfolding tally
  tally-database [] s = refl
  tally-database (r ∷ rs) s =
      tally-database rs (tally_one r.status s) ∙ tally_one-database r.status s

  module _ (x : Externals F W) (p : Payloads F) (equal_fold : String → String → Bool)
      (now : ℕ) where
    pub authenticate-Known :
        (d authorization : String) (db : Database F W)
        → Ensures (Known d db.tables) (authenticate x p equal_fold d authorization db)
    unfolding authenticate
    authenticate-Known d authorization db =
        if-Ensures (Known d db.tables) (starts_with authorization "Bearer ")
          (authenticate_device x d (x.trim (slice authorization 7 (len authorization))))
          (or_fail none) db (λ _. authenticate_device-Known x d _ db) (λ _. tt)

    -- What a handler has done: where it answers, each event has its own result, in order.
    unfoldable pub Serves : String → List Event → Response BatchResponse × Server F W → Type 0
    Serves d es (http_error status, s) = Unit
    Serves d es (http_ok response, s) = Answered x d s.database.tables es response.results

    respond-Serves :
        (device : Device) (es : List Event) (before : Tables F W)
        (r : Option (List EventResult) × Database F W) (s : Server F W)
        → Distinct es
        → Closes (Takes x (Device.id device) (valid_events p now es) before) before r
        → Serves (Device.id device) es (respond x p equal_fold now device es r s)
    unfolding respond Serves
    respond-Serves device es before (none, db) s new h = tt
    respond-Serves device es before (some stored, db) s new h =
        rw (tally-database stored (record s { database = db })) (
          merge-Answered x (Device.id device) db.tables p now es stored new h.answered es
            (λ e m. m))

    authorized-Serves :
        (d : String) (es : List Event) (before : Database F W) (r : Option Device × Database F W)
        (s : Server F W)
        → Distinct es
        → Ensures (Known d before.tables) r
        → Serves d es (authorized x p equal_fold now es r s)
    unfolding authorized ingest_events Serves
    authorized-Serves d es before (none, db) s new h = tt
    authorized-Serves d es before (some device, db) s new h =
        subst (λ d. Serves d es (authorized x p equal_fold now es (some device, db) s)) h.0
          (respond-Serves device es db.tables _
            (record s { database = db; rejected = s.rejected + invalid_count p now es }) new
            (store_ingest_batch-Closes x (Device.id device) (valid_events p now es) now db
              (valid_events-Distinct p now es new)))

    handle_decoded-Serves :
        (authorization : String) (batch : Batch) (s : Server F W)
        → Distinct batch.events
        → Serves batch.device_id batch.events
            (handle_decoded x p equal_fold now authorization (decoded batch) s)
    unfolding handle_decoded
    handle_decoded-Serves authorization batch s new =
        authorized-Serves batch.device_id batch.events s.database _ s new
          (authenticate-Known batch.device_id authorization s.database)

    decode_batch-cases :
        (decode : List ℕ → Option Batch) (body : List ℕ) (batch : Batch)
        → decode body ≡ some batch
        → ((e : DecodeError) × (decode_batch decode body now ≡ failed e))
          ⊎ ((decode_batch decode body now ≡ decoded batch) × Distinct batch.events)
    unfolding decode_batch
    decode_batch-cases decode body batch read =
        elim (Bool-cases (length body == 0 || ltb max_request_bytes (length body))) [
          | inl large ↦ inl (request_size, rw large refl)
          | inr fits ↦ elim (check_batch-cases now batch) [
            | inl (e, bad) ↦ inl (e, rw (fits, read, bad) refl)
            | inr (fine, new) ↦ inr (rw (fits, read, fine) refl, new)
          ]
        ]

    undecoded :
        (decode : List ℕ → Option Batch) (body : List ℕ)
        → decode body ≡ none
        → (e : DecodeError) × (decode_batch decode body now ≡ failed e)
    unfolding decode_batch
    undecoded decode body unread =
        elim (Bool-cases (length body == 0 || ltb max_request_bytes (length body))) [
          | inl large ↦ (request_size, rw large refl)
          | inr fits ↦ (invalid_json, rw (fits, unread) refl)
        ]

    handle_body_failed :
        (decode : List ℕ → Option Batch) (authorization : String) (body : List ℕ) (d : String)
        (es : List Event) (e : DecodeError) (s : Server F W)
        → decode_batch decode body now ≡ failed e
        → Serves d es (
            handle_body x p equal_fold decode now authorization
              (limited max_request_bytes (some body))
              s)
    unfolding handle_body Serves handle_decoded
    handle_body_failed decode authorization body d es e s bad =
        elim (Bool-cases (ltb max_request_bytes (length body))) [
          | inl large ↦ rw large tt
          | inr fits ↦ rw (fits, bad) tt
        ]

    handle_body-Serves :
        (decode : List ℕ → Option Batch) (authorization : String) (body : List ℕ) (batch : Batch)
        (s : Server F W)
        → decode body ≡ some batch
        → Serves batch.device_id batch.events (
            handle_body x p equal_fold decode now authorization
              (limited max_request_bytes (some body))
              s)
    unfolding handle_body Serves handle_decoded
    handle_body-Serves decode authorization body batch s read =
        elim (Bool-cases (ltb max_request_bytes (length body))) [
          | inl large ↦ rw large tt
          | inr fits ↦ elim (decode_batch-cases decode body batch read) [
            | inl (e, bad) ↦ rw (fits, bad) tt
            | inr (fine, new) ↦ rw (fits, fine) (handle_decoded-Serves authorization batch s new)
          ]
        ]

    -- The tests before the body is read.
    reads_body :
        (decode : List ℕ → Option Batch) (request : Request) (body : List ℕ) (d : String)
        (es : List Event) (s : Server F W)
        → request.body ≡ some body
        → Serves d es (
            handle_body x p equal_fold decode now request.authorization
              (limited max_request_bytes (some body))
              s)
        → Serves d es (batches x p equal_fold decode now request s)
    unfolding batches Serves
    reads_body decode request body d es s sent h =
        elim (Bool-cases (str_eq request.method "POST")) [
          | inr other ↦ rw other tt
          | inl post ↦ elim (Bool-cases (content_type_json x p equal_fold request.content_type)) [
            | inr other ↦ rw (post, other) tt
            | inl json ↦ rw (post, json, sent) h
          ]
        ]

    -- Where the handler of a batch answers with 200, each event of the batch has its own result, in
    -- order: the device has a receipt of it in the tables that the handler leaves, or it is rejected.
    -- The batch is what the decoder reads from the body.
    pub batches-Serves :
        (decode : List ℕ → Option Batch) (request : Request) (body : List ℕ) (batch : Batch)
        (s : Server F W)
        → request.body ≡ some body
        → decode body ≡ some batch
        → Serves batch.device_id batch.events (batches x p equal_fold decode now request s)
    batches-Serves decode request body batch s sent read =
        reads_body decode request body batch.device_id batch.events s sent
          (handle_body-Serves decode request.authorization body batch s read)

    -- A body that is not decoded has no answer.
    pub batches_undecoded :
        (decode : List ℕ → Option Batch) (request : Request) (body : List ℕ) (d : String)
        (es : List Event) (s : Server F W)
        → request.body ≡ some body
        → decode body ≡ none
        → Serves d es (batches x p equal_fold decode now request s)
    batches_undecoded decode request body d es s sent unread =
        let (e, bad) = undecoded decode body unread in
        reads_body decode request body d es s sent
          (handle_body_failed decode request.authorization body d es e s bad)
