-- ===== src/Collector/Upload/Draining.antt =====
-- A queue is drained by enough uploads (internal/collector/runtime.go).
use on_watch.Base.{
  ℕ, ◌≤◌, ◌<◌, ◌≡◌, false, Option, none, List, [], ◌∷◌, map, length, string_eq, ◌⊎◌,
}
use on_watch.Ingest.{Event, EventResult}
use on_watch.Ingest.Desired.{GoText}
use on_watch.Collector.Spool.{Codec, Spool}
use on_watch.Collector.Spool.Removal.{IsSpool, pending}
use on_watch.Collector.Spool.Progress.{AllValid}
use on_watch.Collector.Upload.{BatchResponse, Reply, answered, Runtime, UploadError, upload_once}

abbrev pub accepted : Event → EventResult
accepted e = record { event_id = e.event_id; status = "accepted"; code = "" }

-- A server that accepts whatever it is sent, and asks for no other configuration.
abbrev pub Accepts : (List Event → ℕ → Reply) → Type 0
Accepts reply =
    (es : List Event) (revision : ℕ)
    → (response : BatchResponse) × (reply es revision ≡ answered response)
      × (response.config_revision ≡ revision)
      × (response.results ≡ map accepted es)

-- A collector that is not paused, with no failing write to come and only valid records.
pub record IsReady (codec : Codec) (r : Runtime) : Type 0 where
  pub spool : IsSpool r.spool
  pub valid : AllValid (pending codec r.spool)
  pub works : r.spool.faults ≡ []
  pub local_works : r.faults ≡ []
  pub batches : 0 < r.batch_size
  pub unpaused : r.auth_paused ≡ false

-- The runtime after an upload that the server has accepted.
record IsStored (r : Runtime) (spool : Spool) (res : Option UploadError × Runtime) : Type 0 where
  no_error : res.0 ≡ none
  stored : res.1.spool ≡ spool
  works : res.1.faults ≡ []
  batches : res.1.batch_size ≡ r.batch_size
  paused : res.1.auth_paused ≡ r.auth_paused
  waits : res.1.retry_until ≡ 0

-- How an upload ends that the server accepts: the queue gets shorter, or it was empty.
record Advances (codec : Codec) (r : Runtime) (res : Option UploadError × Runtime) : Type 0 where
  no_error : res.0 ≡ none
  ready : IsReady codec res.1
  waits : res.1.retry_until ≤ r.retry_until
  less :
      (pending codec res.1.spool ≡ [])
      ⊎ (length (pending codec res.1.spool) < length (pending codec r.spool))

-- The uploads at some times.
pub uploads : GoText → Codec → (ℕ → ℕ) → (List Event → ℕ → Reply) → List ℕ → Runtime → Runtime
uploads text codec scale reply [] r = r
uploads text codec scale reply (now ∷ times) r =
    uploads text codec scale reply times (upload_once text codec scale reply now r).1
