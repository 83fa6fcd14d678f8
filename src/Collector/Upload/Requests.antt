-- ===== src/Collector/Upload/Requests.antt =====
-- The batch that `Client.Upload` sends (internal/collector/client.go) and the checks of the server
-- (`DecodeBatch`).
use Prim.Native.String.{len}
use on_watch.Base.{
  ℕ, ◌+◌, ◌≤◌, ◌<◌, ◌≡◌, refl, none, some, List, ◌∷◌, String, arith, length, length-map, false,
  ◌==◌, ◌||◌, ltb,
}
use on_watch.Ingest.Decoding.{
  check_batch, validate_device_id, max_batch_events, max_future_clock_skew,
}
use on_watch.Collector.Spool.{Codec, Spool, SpoolRecord, batch}
use on_watch.Collector.Spool.Bounds.{batch-length}
use on_watch.Collector.Spool.Distinct.{sent, batch-distinct}
use on_watch.Collector.Upload.{request}

-- A batch of the spool passes every check that the server makes of a decoded batch, if the device
-- has a valid identifier and the version is short, the collector's clock is at most ten minutes
-- ahead and the limit is no more than the 500 that the configuration allows.
pub request-check_batch :
    (codec : Codec) (limit max_bytes : ℕ) (s : Spool) (first : SpoolRecord)
    (others : List SpoolRecord) (device version : String) (revision now server_now : ℕ)
    → batch codec limit max_bytes s ≡ some (first ∷ others)
    → limit ≤ max_batch_events
    → validate_device_id device ≡ none
    → len version ≤ 128
    → 0 < now
    → now ≤ server_now + max_future_clock_skew
    → check_batch server_now (request device version revision now (sent (first ∷ others))) ≡ none
unfolding check_batch
request-check_batch codec limit max_bytes s first others device version revision now server_now read
      within known short set close =
    let few = batch-length codec limit max_bytes s (first ∷ others) read in
    let distinct = batch-distinct codec limit max_bytes s (first ∷ others) read in
    let events = sent (first ∷ others) in
    let size : length events ≡ length (first ∷ others) =
      length-map (λ r. SpoolRecord.event r) (first ∷ others) in
    let timely : (now == 0 || ltb (server_now + max_future_clock_skew) now || ltb 128 (len version))
        ≡ false =
      ground arith in
    let sized : (length events == 0 || ltb max_batch_events (length events)) ≡ false =
      ground (arith, size, few) in
    rw (timely, known, sized, distinct) refl
