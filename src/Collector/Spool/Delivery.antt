-- ===== src/Collector/Spool/Delivery.antt =====
-- `Ack` of the records of a `Batch`, and `SetError` (internal/collector/spool.go).
use on_watch.Base.{
  ℕ, ◌≡◌, ◌≢◌, refl, sym, ◌∙◌, Option, none, some, List, [], ◌++◌, ap, String, Bool-cases, inl, inr,
  ◌⊎◌,
}
use on_watch.Collector.Spool.{
  Codec, Spool, SpoolRecord, SpoolError, batch, ack, acked, after_save, set_error, save_state,
  next_fails, used, restart,
}
use on_watch.Collector.Spool.Cursors.{queue-Agree, events, Agree-refl}
use on_watch.Collector.Spool.Batches.{walk_files-ack}
use on_watch.Collector.Spool.Removal.{
  IsSpool, pending, Keeps, remove_acked-Keeps, save_state-fails, save_state-works,
}

-- Either the records have left the queue, or there is an error and the queue is as before.
pub record Delivers (codec : Codec) (rs : List SpoolRecord) (s : Spool)
    (r : Option SpoolError × Spool) : Type 0 where
  pub sound : IsSpool r.1
  pub outcome :
      (pending codec s ≡ events rs ++ pending codec r.1)
      ⊎ ((r.0 ≢ none) × (pending codec r.1 ≡ pending codec s))

-- In a spool whose file names differ and whose cursors on disk agree with those in memory,
-- acknowledging a batch takes exactly its records from the head of the queue, or returns an error
-- and takes nothing; the names go on differing and the cursors agreeing.
pub batch-ack :
    (codec : Codec) (limit max_bytes last_upload : ℕ) (s : Spool) (rs : List SpoolRecord)
    → IsSpool s
    → batch codec limit max_bytes s ≡ some rs
    → Delivers codec rs s (ack rs last_upload s)
unfolding batch ack after_save
batch-ack codec limit max_bytes last_upload s rs ok read =
    let o = s.state.offsets in
    let s' = acked rs last_upload s in
    let before =
      walk_files-ack codec limit max_bytes o 0 [] 0 s.files rs o ok.unique (Agree-refl o s.files)
        read in
    elim (Bool-cases (next_fails s.faults)) [
      | inl fails ↦ rw (save_state-fails s' fails) (record {
        sound = record { unique = ok.unique; persisted = ok.persisted };
        outcome = inr (λ e. cc, refl);
      })
      | inr works ↦
          let saved : Spool = record (used s') { saved = s'.state } in
          let removed =
            remove_acked-Keeps codec saved
              (record { unique = ok.unique; persisted = Agree-refl s'.state.offsets s.files }) in
          rw (save_state-works s' works) (record {
            sound = removed.sound;
            outcome = inl (before ∙ ap (λ q. events rs ++ q) (sym removed.queued));
          })
    ]

-- A restart, which reads the cursors from disk, leaves the queue as it was, if the cursors on disk
-- agree with those in memory on the files.
pub restart-pending : (codec : Codec) (s : Spool) → IsSpool s → Keeps codec s (restart s)
unfolding restart
restart-pending codec s ok = record {
  queued = queue-Agree codec s.saved.offsets s.state.offsets s.files ok.persisted;
  sound = record { unique = ok.unique; persisted = Agree-refl s.saved.offsets s.files };
}

pub set_error-Keeps :
    (codec : Codec) (message : String) (s : Spool)
    → IsSpool s
    → Keeps codec s (set_error message s).1
unfolding set_error save_state
set_error-Keeps codec message s ok = elim (Bool-cases (next_fails s.faults)) [
  | inl fails ↦
      rw fails
        (record { queued = refl; sound = record { unique = ok.unique; persisted = ok.persisted } })
  | inr works ↦ rw works (record {
    queued = refl;
    sound = record { unique = ok.unique; persisted = Agree-refl s.state.offsets s.files };
  })
]
