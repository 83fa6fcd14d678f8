-- ===== src/Collector/Upload/Delivery.antt =====
-- What leaves the queue in `uploadOnce` (internal/collector/runtime.go).
use text.Mathlib.TextEquality.{eq_iff}
use on_watch.Base.{
  ℕ, ◌≡◌, refl, ap, ◌∙◌, true, Option, none, some, List, [], ◌∷◌, ◌++◌, String, arith, length, ltb,
  ◌==◌, ==_iff, string_eq, Bool-cases, inl, inr, ◌⊎◌, ◌||◌,
}
use on_watch.Ingest.{Event, EventResult}
use on_watch.Ingest.Desired.{GoText}
use on_watch.Collector.Spool.{
  Codec, Spool, SpoolError, SpoolRecord, batch, ack, set_error, next_fails, other_faults,
}
use on_watch.Collector.Spool.Cursors.{events}
use on_watch.Collector.Spool.Distinct.{sent}
use on_watch.Collector.Spool.Removal.{IsSpool, pending, Keeps}
use on_watch.Collector.Spool.Delivery.{Delivers, batch-ack, set_error-Keeps}
use on_watch.Collector.Upload.{
  BatchResponse, Reply, failed, answered, Runtime, UploadError, order_mismatch, invalid_status,
  quarantine_failed, max_upload_bytes, is_settled, settle, save_local_state, delay_upload,
  mark_error, upload_fails, finish, acknowledge, deliver, send, upload_once,
}

abbrev pub Has : Event × EventResult → List (Event × EventResult) → Type 0
Has a [] = ⊥
Has a (x ∷ xs) = (x ≡ a) ⊎ Has a xs

-- Each record has its own result, in order, by which the server has it, or it is quarantined.
abbrev pub Settled : List (Event × EventResult) → List SpoolRecord → List EventResult → Type 0
Settled quarantined [] [] = Unit
Settled quarantined [] (x ∷ xs) = ⊥
Settled quarantined (r ∷ rs) [] = ⊥
Settled quarantined (r ∷ rs) (x ∷ xs) =
    (x.event_id ≡ r.event.event_id)
    × ((is_settled x.status ≡ true) ⊎ ((x.status ≡ "rejected") × Has (r.event, x) quarantined))
    × Settled quarantined rs xs

-- What the loop over the results leaves.
record Settles (rs : List SpoolRecord) (xs : List EventResult) (r : Runtime)
    (res : Option UploadError × Runtime) : Type 0 where
  same : res.1.spool ≡ r.spool
  kept : (p : Event × EventResult) → Has p r.quarantined → Has p res.1.quarantined
  done : res.0 ≡ none → Settled res.1.quarantined rs xs

stops :
    (e : UploadError) (rs : List SpoolRecord) (xs : List EventResult) (r r' : Runtime)
    → r'.spool ≡ r.spool
    → r'.quarantined ≡ r.quarantined
    → Settles rs xs r (some e, r')
stops e rs xs r r' same kept = record {
  same = same;
  kept = λ p h. rw kept h;
  done = λ none_left. absurd (cc);
}

noted : SpoolRecord → EventResult → Runtime → Runtime
noted record' x r = record r {
  faults = other_faults (other_faults r.faults);
  quarantined = (record'.event, x) ∷ r.quarantined;
}

settle-Settles :
    (rs : List SpoolRecord) (xs : List EventResult) (r : Runtime)
    → length xs ≡ length rs
    → Settles rs xs r (settle rs xs r)
unfolding settle noted
settle-Settles [] [] r h = record { same = refl; kept = λ p k. k; done = λ e. tt }
settle-Settles [] (x ∷ xs) r h = absurd (omega (arith, h))
settle-Settles (record' ∷ rs) [] r h = absurd (omega (arith, h))
settle-Settles (record' ∷ rs) (x ∷ xs) r h =
    let h' : length xs ≡ length rs = omega (arith, h) in
    elim (Bool-cases (string_eq.beq x.event_id record'.event.event_id)) [
      | inr other ↦ rw other (stops order_mismatch _ _ r r refl refl)
      | inl own ↦
          let own' : x.event_id ≡ record'.event.event_id = (eq_iff _ _).0 own in
          elim (Bool-cases (is_settled x.status)) [
            | inl fine ↦
                let ih = settle-Settles rs xs r h' in
                rw (own, fine)
                  (record {
                    same = ih.same;
                    kept = ih.kept;
                    done = λ e. (own', inl fine, ih.done e);
                  })
            | inr unsettled ↦ elim (Bool-cases (string_eq.beq x.status "rejected")) [
              | inr unknown ↦ rw (own, unsettled, unknown) (stops invalid_status _ _ r r refl refl)
              | inl rejected ↦ elim (Bool-cases (next_fails r.faults)) [
                | inl fails ↦
                    rw (own, unsettled, rejected, fails)
                      (stops quarantine_failed _ _ r (record r { faults = other_faults r.faults })
                        refl refl)
                | inr works ↦ elim (Bool-cases (next_fails (other_faults r.faults))) [
                  | inl unsynced ↦
                      rw (own, unsettled, rejected, works, unsynced)
                        (record {
                          same = refl;
                          kept = λ p k. inr k;
                          done = λ none_left. absurd (cc);
                        })
                  | inr synced ↦
                      let ih = settle-Settles rs xs (noted record' x r) h' in
                      rw (own, unsettled, rejected, works, synced)
                        (record {
                          same = ih.same;
                          kept = λ p k. ih.kept p (inr k);
                          done = λ e. (
                            own',
                            inr ((eq_iff x.status "rejected").0 rejected, ih.kept _ (inl refl)),
                            ih.done e,
                          );
                        })
                ]
              ]
            ]
          ]
    ]

-- What one `uploadOnce` does to the queue: nothing, or exactly the records that were sent leave it,
-- each settled by its own result in the server's answer.
pub record Uploads (codec : Codec) (reply : List Event → ℕ → Reply) (r : Runtime)
    (res : Option UploadError × Runtime) : Type 0 where
  pub sound : IsSpool res.1.spool
  pub outcome :
      (pending codec res.1.spool ≡ pending codec r.spool)
      ⊎ ((rs : List SpoolRecord) × (response : BatchResponse) × (reply (sent rs) r.revision
            ≡ answered response)
          × (pending codec r.spool ≡ events rs ++ pending codec res.1.spool)
          × Settled res.1.quarantined rs response.results)

module _ (codec : Codec) (reply : List Event → ℕ → Reply) where
  unchanged :
      (r : Runtime) (res : Option UploadError × Runtime)
      → Keeps codec r.spool res.1.spool
      → Uploads codec reply r res
  unchanged r res h = record { sound = h.sound; outcome = inl h.queued }

  save_local_state-same :
      (now : ℕ) (r : Runtime)
      → let t = (save_local_state now r).1 in (t.spool ≡ r.spool) × (t.quarantined ≡ r.quarantined)
  unfolding save_local_state
  save_local_state-same now r = ground arith

  delay_upload-spool :
      (scale : ℕ → ℕ) (now status : ℕ) (r : Runtime)
      → (delay_upload scale now status r).spool ≡ r.spool
  unfolding delay_upload
  delay_upload-spool scale now status r = ground arith

  upload_fails-spool :
      (scale : ℕ → ℕ) (now status : ℕ) (message : String) (r : Runtime)
      → (upload_fails scale now status message r).1.spool ≡ (set_error message r.spool).1
  unfolding upload_fails
  upload_fails-spool scale now status message r =
      let delayed = delay_upload scale now status r in
      (save_local_state-same now (mark_error message delayed)).0
      ∙ ap (λ s. (set_error message s).1) (delay_upload-spool scale now status r)

  finish-same :
      (text : GoText) (now : ℕ) (response : BatchResponse) (e : Option SpoolError) (spool : Spool)
      (r : Runtime)
      → let t = (finish text now response (e, spool) r).1 in
        (t.spool ≡ spool) × (t.quarantined ≡ r.quarantined)
  unfolding finish
  finish-same text now response (some e) spool r = (refl, refl)
  finish-same text now response none spool r = ground (arith, save_local_state-same now)

  -- The loop has read the answer to what was sent: it stops and takes nothing, or `Ack` takes the
  -- records.
  acknowledge-Uploads :
      (text : GoText) (limit now : ℕ) (rs : List SpoolRecord) (response : BatchResponse)
      (r : Runtime) (error : Option UploadError) (t : Runtime)
      → IsSpool r.spool
      → batch codec limit max_upload_bytes r.spool ≡ some rs
      → reply (sent rs) r.revision ≡ answered response
      → Settles rs response.results r (error, t)
      → Uploads codec reply r (acknowledge text now rs response (error, t))
  unfolding acknowledge
  acknowledge-Uploads text limit now rs response r (some e) t ok read answer h =
      let same : t.spool ≡ r.spool = h.same in
      record { sound = rw same ok; outcome = inl (ap (pending codec) same) }
  acknowledge-Uploads text limit now rs response r none t ok read answer h =
      let same : t.spool ≡ r.spool = h.same in
      let (error, spool) = ack rs now t.spool in
      let acked : Delivers codec rs r.spool (ack rs now t.spool) =
        rw same (batch-ack codec limit max_upload_bytes now r.spool rs ok read) in
      let last = finish-same text now response error spool t in
      record {
        sound = rw last.0 acked.sound;
        outcome = elim acked.outcome [
          | inr (_, kept) ↦ inl (rw last.0 kept)
          | inl taken ↦ inr (rs, response, answer, rw last.0 taken, rw last.1 (h.done refl))
        ];
      }

  deliver-Uploads :
      (text : GoText) (scale : ℕ → ℕ) (limit now : ℕ) (rs : List SpoolRecord) (answer : Reply)
      (r : Runtime)
      → IsSpool r.spool
      → batch codec limit max_upload_bytes r.spool ≡ some rs
      → reply (sent rs) r.revision ≡ answer
      → Uploads codec reply r (deliver text codec scale reply now rs answer r)
  unfolding deliver
  deliver-Uploads text scale limit now rs (failed status message) r ok read answer = unchanged r _ (
      rw (upload_fails-spool scale now status message r) (set_error-Keeps codec message r.spool ok))
  deliver-Uploads text scale limit now rs (answered response) r ok read answer =
      elim (Bool-cases (length response.results == length rs)) [
        | inr other ↦ rw other (unchanged r _ (record { queued = refl; sound = ok }))
        | inl same ↦
            let (error, t) = settle rs response.results r in
            let h = settle-Settles rs response.results r ((==_iff _ _).0 same) in
            rw same (acknowledge-Uploads text limit now rs response r error t ok read answer h)
      ]

  send-Uploads :
      (text : GoText) (scale : ℕ → ℕ) (limit now : ℕ) (found : Option (List SpoolRecord))
      (r : Runtime)
      → IsSpool r.spool
      → batch codec limit max_upload_bytes r.spool ≡ found
      → Uploads codec reply r (send text codec scale reply now found r)
  unfolding send
  send-Uploads text scale limit now none r ok read =
      unchanged r _ (record { queued = refl; sound = ok })
  send-Uploads text scale limit now (some []) r ok read =
      unchanged r _ (record { queued = refl; sound = ok })
  send-Uploads text scale limit now (some (first ∷ others)) r ok read =
      deliver-Uploads text scale limit now (first ∷ others) _ r ok read refl

  -- In one `uploadOnce` over a spool whose file names differ and whose cursors on disk agree with
  -- those in memory, as they go on to do, nothing leaves the queue, or exactly the records that
  -- were sent do, in order, after the server has answered each of them as accepted, duplicate or
  -- enriched, or as rejected with the record in the quarantine. This holds whichever write fails
  -- and whatever the server answers.
  pub upload_once-Uploads :
      (text : GoText) (scale : ℕ → ℕ) (now : ℕ) (r : Runtime)
      → IsSpool r.spool
      → Uploads codec reply r (upload_once text codec scale reply now r)
  unfolding upload_once
  upload_once-Uploads text scale now r ok =
      elim (Bool-cases (r.auth_paused || ltb now r.retry_until)) [
        | inl waits ↦ rw waits (unchanged r _ (record { queued = refl; sound = ok }))
        | inr goes ↦ rw goes (send-Uploads text scale r.batch_size now _ r ok refl)
      ]
