-- ===== src/Server/Delivered.antt =====
-- A collector and the ingest server together: `uploadOnce` of internal/collector/runtime.go, with
-- `post` of internal/collector/client.go, over the batch handler of internal/ingestserver/server.go.
-- An answer may be lost after the server has stored the batch.
use Prim.Native.String.{◌++◌ as ◌<>◌}
use on_watch.Base.{
  ℕ, ◌≡◌, refl, sym, ◌∙◌, Option-cases, Bool, true, false, ◌⊎◌, inl, inr, none, some, Option, List,
  [], ◌∷◌, ◌++◌, String, All,
}
use on_watch.Ingest.{Event, EventResult, Batch}
use on_watch.Ingest.Desired.{GoText}
use on_watch.Ingest.Validation.{Payloads}
use on_watch.Collector.Spool.{Codec, SpoolRecord}
use on_watch.Collector.Spool.Cursors.{events}
use on_watch.Collector.Spool.Distinct.{sent}
use on_watch.Collector.Spool.Removal.{IsSpool, pending}
use on_watch.Collector.Upload.{BatchResponse, Reply, Runtime, request, upload_once}
use on_watch.Collector.Upload.Delivery.{Has, Settled, upload_once-Uploads}
use on_watch.Central.Tables.{Tables}
use on_watch.Central.Payload.{
  Externals, canonical_payload, hash_payload, immutable_digest, json_is_enrichment,
}
use on_watch.Central.Storing.Received.{Received}
use on_watch.Central.Storing.Batches.{Answered}
use on_watch.Server.{Server, Request, Response, http_error, http_ok, batches}
use on_watch.Server.Exchange.{Serves, batches-Serves, batches_undecoded}

-- What the collector of a device knows of itself: its identifier, its token and its version.
pub record Identity : Type 0 where
  pub device_id : String
  pub token : String
  pub version : String

-- The request of `post`.
pub upload_request : (Batch → List ℕ) → Identity → ℕ → ℕ → List Event → Request
upload_request encode me sent_at revision es = record {
  method = "POST";
  content_type = "application/json";
  authorization = "Bearer " <> me.token;
  body = some (encode (request me.device_id me.version revision sent_at es));
}

-- What `post` returns: status 0 where no answer arrives.
pub post_reply : Bool → Response BatchResponse → Reply
post_reply true response = Reply.failed 0 "no answer"
post_reply false (http_error status) = Reply.failed status "collector server returned an error"
post_reply false (http_ok response) = Reply.answered response

module _ {F W : Type 0} (x : Externals F W) where
  -- The same event, but for the layout of the JSON of its payload.
  pub record Same (e e' : Event) : Type 0 where
    pub payload : String
    pub rest : e' ≡ record e { payload = payload }
    pub parsed : x.parse payload ≡ x.parse e.payload
    pub canonical : canonical_payload x payload ≡ canonical_payload x e.payload

  -- The same events, in order.
  abbrev pub AllSame : List Event → List Event → Type 0
  AllSame [] [] = Unit
  AllSame [] (e' ∷ es') = ⊥
  AllSame (e ∷ es) [] = ⊥
  AllSame (e ∷ es) (e' ∷ es') = Same e e' × AllSame es es'

  enrichment-layout :
      (stored payload other : String)
      → x.parse other ≡ x.parse payload
      → json_is_enrichment x stored other ≡ json_is_enrichment x stored payload
  unfolding json_is_enrichment
  enrichment-layout stored payload other parsed = elim (Option-cases (x.parse stored)) [
    | inl unread ↦ rw (json_is_enrichment, unread) refl
    | inr (old, read) ↦ rw (json_is_enrichment, read, parsed) refl
  ]

  hash-layout :
      (payload other : String)
      → canonical_payload x other ≡ canonical_payload x payload
      → hash_payload x other ≡ hash_payload x payload
  unfolding hash_payload
  hash-layout payload other canonical = rw (hash_payload, canonical) refl

  Received-layout :
      (d payload : String) (e : Event) (t : Tables F W)
      → x.parse payload ≡ x.parse e.payload
      → canonical_payload x payload ≡ canonical_payload x e.payload
      → Received x d (record e { payload = payload }) t
      → Received x d e t
  unfolding immutable_digest
  Received-layout d payload e t parsed canonical h = record {
    receipt = h.receipt;
    found = h.found;
    same_identity = h.same_identity;
    same_payload = elim h.same_payload [
      | inl same ↦ inl (same ∙ hash-layout e.payload payload canonical)
      | inr absorbed ↦ inr (record {
        fingerprint = absorbed.fingerprint;
        compacted = absorbed.compacted;
        kind = absorbed.kind;
        enrichment =
            sym (enrichment-layout h.receipt.payload_json e.payload payload parsed)
            ∙ absorbed.enrichment;
      })
    ];
  }

  Answered-layout :
      (d : String) (t : Tables F W) (es es' : List Event) (results : List EventResult)
      → AllSame es es'
      → Answered x d t es' results
      → Answered x d t es results
  Answered-layout d t [] [] results same h = h
  Answered-layout d t [] (e' ∷ es') results same h = absurd same
  Answered-layout d t (e ∷ es) [] results same h = absurd same
  Answered-layout d t (e ∷ es) (e' ∷ es') [] same h = h
  Answered-layout d t (e ∷ es) (e' ∷ es') (r ∷ rs) same h =
      let k = same.0 in
      let g = rw k.rest at h in
      (
        g.0,
        elim g.1 [
          | inl (fine, got) ↦ inl (fine, Received-layout d k.payload e t k.parsed k.canonical got)
          | inr bad ↦ inr bad
        ],
        Answered-layout d t es es' rs same.1 g.2,
      )

module _ {F W : Type 0} (x : Externals F W) (p : Payloads F) (equal_fold : String → String → Bool)
    (encode : Batch → List ℕ) (decode : List ℕ → Option Batch) (me : Identity) (server_now : ℕ)
    (sent_at : ℕ) (lost : Bool) (s : Server F W) where
  -- The server after the batch, and its answer.
  pub exchange : List Event → ℕ → Response BatchResponse × Server F W
  exchange es revision =
      batches x p equal_fold decode server_now (upload_request encode me sent_at revision es) s

  pub server_reply : List Event → ℕ → Reply
  unfolding post_reply exchange
  server_reply es revision = post_reply lost (exchange es revision).0

  -- The event has a receipt, or the server has rejected it and it is in the quarantine.
  abbrev pub Kept : Tables F W → List (Event × EventResult) → Event → Type 0
  Kept t quarantined e =
      Received x me.device_id e t
      ⊎ ((result : EventResult) × (result.status ≡ "rejected") × Has (e, result) quarantined)

  Answered-Kept :
      (t : Tables F W) (quarantined : List (Event × EventResult)) (rs : List SpoolRecord)
      (results : List EventResult)
      → Answered x me.device_id t (sent rs) results
      → Settled quarantined rs results
      → All (Kept t quarantined) (sent rs)
  Answered-Kept t q [] [] h k = tt
  Answered-Kept t q [] (r ∷ rs) h k = tt
  Answered-Kept t q (e ∷ es) [] h k = absurd h
  Answered-Kept t q (e ∷ es) (r ∷ rs) h k = (
    elim k.1 [
      | inr (bad, there) ↦ inr (r, bad, there)
      | inl fine ↦ elim h.1 [ inl (_, got) ↦ inl got | inr bad ↦ absurd (cc) ]
    ],
    Answered-Kept t q es rs h.2 k.2,
  )

  post_reply_answered :
      (lost : Bool) (response : Response BatchResponse) (b : BatchResponse)
      → post_reply lost response ≡ Reply.answered b
      → response ≡ http_ok b
  unfolding post_reply
  post_reply_answered true response b h = cc
  post_reply_answered false (http_error status) b h = cc
  post_reply_answered false (http_ok response) b h = cc

  Serves-Answered :
      (es : List Event) (result : Response BatchResponse × Server F W) (b : BatchResponse)
      → Serves x p equal_fold server_now me.device_id es result
      → result.0 ≡ http_ok b
      → Answered x me.device_id result.1.database.tables es b.results
  unfolding Serves
  Serves-Answered es (http_error status, after) b h ok = cc
  Serves-Answered es (http_ok response, after) b h ok =
      let same : response ≡ b = cc ok in rw (← same) h

  -- What the server reads of the batch of these events: nothing, or a batch of the same device with
  -- the same events.
  abbrev pub Reads : ℕ → List Event → Type 0
  Reads revision es =
      let read = decode (encode (request me.device_id me.version revision sent_at es)) in
      (read ≡ none)
      ⊎ ((batch : Batch) × (read ≡ some batch)
          × (batch.device_id ≡ me.device_id)
          × AllSame x es batch.events)

  Serves-layout :
      (es es' : List Event) (result : Response BatchResponse × Server F W)
      → AllSame x es es'
      → Serves x p equal_fold server_now me.device_id es' result
      → Serves x p equal_fold server_now me.device_id es result
  unfolding Serves
  Serves-layout es es' (http_error status, after) same h = tt
  Serves-layout es es' (http_ok response, after) same h =
      Answered-layout x me.device_id after.database.tables es es' response.results same h

  exchange-Serves :
      (es : List Event) (revision : ℕ)
      → Reads revision es
      → Serves x p equal_fold server_now me.device_id es (exchange es revision)
  unfolding exchange upload_request
  exchange-Serves es revision reads =
      let sent_batch = request me.device_id me.version revision sent_at es in
      let posted = upload_request encode me sent_at revision es in
      elim reads [
        | inl unread ↦
            batches_undecoded x p equal_fold server_now decode posted (encode sent_batch)
              me.device_id es s refl unread
        | inr (batch, read, named, same) ↦ Serves-layout es batch.events _ same (
            rw named at (
              batches-Serves x p equal_fold server_now decode posted (encode sent_batch) batch s
                refl read))
      ]

  -- In one `uploadOnce` against the ingest server, nothing leaves the queue, or exactly the records
  -- that were sent do, in order, and of each the server then has a receipt of its device, or has
  -- rejected it and it is in the quarantine. This holds whichever write of the collector and
  -- statement of the server fails, whatever is wrong with the token, and where the answer is lost.
  -- File names of the spool differ, and its cursors on disk agree with those in memory. Of a batch of
  -- records at the head of the queue, the server reads nothing, or a batch of the same device with
  -- the same events, whose payloads may be laid out differently as JSON.
  pub upload_once-Kept :
      (codec : Codec) (text : GoText) (scale : ℕ → ℕ) (now : ℕ) (r : Runtime)
      → IsSpool r.spool
      → ((rs : List SpoolRecord) (rest : List (Option Event))
          → pending codec r.spool ≡ events rs ++ rest
          → Reads r.revision (sent rs))
      → let r' = (upload_once text codec scale server_reply now r).1 in
        (pending codec r'.spool ≡ pending codec r.spool)
        ⊎ ((rs : List SpoolRecord) × (pending codec r.spool ≡ events rs ++ pending codec r'.spool)
            × All (Kept (exchange (sent rs) r.revision).1.database.tables r'.quarantined) (sent rs))
  unfolding server_reply
  upload_once-Kept codec text scale now r ok reads =
      let r' = (upload_once text codec scale server_reply now r).1 in
      elim (upload_once-Uploads codec server_reply text scale now r ok).outcome [
        | inl kept ↦ inl kept
        | inr (rs, response, answer, queued, settled) ↦
            let result = exchange (sent rs) r.revision in
            let told =
              Serves-Answered (sent rs) result response
                (exchange-Serves (sent rs) r.revision (reads rs _ queued))
                (post_reply_answered lost result.0 response answer) in
            inr (
              rs,
              queued,
              Answered-Kept result.1.database.tables r'.quarantined rs response.results told
                  settled,
            )
      ]
