-- ===== src/Collector/Spool/Removal.antt =====
-- `saveStateLocked` and `removeAckedClosedFilesLocked`: what they leave queued, also where they
-- fail (internal/collector/spool.go).
use text.Mathlib.TextEquality.{eq_iff}
use on_watch.Base.{
  ℕ, ◌≤◌, ◌<◌, ◌≡◌, ◌≢◌, refl, sym, ◌∙◌, Bool, true, false, Option, none, some, List, [], ◌∷◌,
  String, arith, length, Dict, lookup, erase, lookup-erase, string_eq, IsMap, erase-IsMap, leb,
  Bool-cases, inl, inr, ◌⊎◌,
}
use on_watch.Ingest.{Event}
use on_watch.Collector.Lines.{Bytes, seek_past, complete_lines-nil}
use on_watch.Collector.Spool.{
  Codec, Spool, SpoolError, remove_failed, save_failed, offset_of, forget, used, remove_acked_loop,
  remove_acked, save_if_changed, save_state, next_fails,
}
use on_watch.Collector.Spool.Cursors.{
  queue, queue-cons, queue-nil, waiting, Agree, Agree-refl, offset_of-erase_other,
}

-- No two files have one name, and the cursors on disk are those in memory, as far as there are
-- files: a restart neither loses nor repeats a record.
pub record IsSpool (s : Spool) : Type 0 where
  pub unique : IsMap s.files
  pub persisted : Agree s.saved.offsets s.state.offsets s.files

abbrev pub pending : Codec → Spool → List (Option Event)
pending codec s = queue codec s.state.offsets s.files

Agree-erase :
    (name : String) (o p : Dict String ℕ) (files : Dict String Bytes)
    → Agree o p files
    → Agree o (erase name p) (erase name files)
Agree-erase name o p [] h = tt
Agree-erase name o p ((j, c) ∷ files) h = elim (Bool-cases (string_eq.beq j name)) [
  | inl same ↦ rw same (Agree-erase name o p files h.1)
  | inr other ↦
      let apart : name ≢ j = λ e. ground (arith, eq_iff j name) in
      rw other (h.0 ∙ sym (offset_of-erase_other name j p apart), Agree-erase name o p files h.1)
]

-- A file that is read to its end has nothing that waits.
waiting_past :
    (codec : Codec) (o : Dict String ℕ) (name : String) (content : Bytes)
    → length content ≤ offset_of name o
    → waiting codec o name content ≡ []
waiting_past codec o name content h =
    rw (seek_past (offset_of name o) content h, complete_lines-nil) refl

-- Removing such a file changes nothing that is queued.
queue-erase :
    (codec : Codec) (name : String) (o : Dict String ℕ) (files : Dict String Bytes)
    → IsMap files
    → ((c : Bytes) → lookup name files ≡ some c → length c ≤ offset_of name o)
    → queue codec (erase name o) (erase name files) ≡ queue codec o files
queue-erase codec name o [] unique past =
    rw (queue-nil codec o, queue-nil codec (erase name o)) refl
queue-erase codec name o ((j, c) ∷ files) unique past = elim (Bool-cases (string_eq.beq j name)) [
  | inl same ↦
      let same' : j ≡ name = (eq_iff j name).0 same in
      let gone : lookup name files ≡ none = rw (sym same') unique.0 in
      let ih = queue-erase codec name o files unique.1 (λ d e. cc) in
      let read = waiting_past codec o name c (past c (rw same refl)) in
      rw (queue-cons codec o j c files, same, same', read) ih
  | inr other ↦
      let apart : name ≢ j = λ e. ground (arith, eq_iff j name) in
      let ih = queue-erase codec name o files unique.1 (λ d e. past d (rw other e)) in
      rw
        (
          queue-cons codec o j c files,
          other,
          queue-cons codec (erase name o) j c (erase name files),
          offset_of-erase_other name j o apart,
          ih,
        )
        refl
]

-- What an operation may do that takes nothing from the queue.
pub record Keeps (codec : Codec) (s s' : Spool) : Type 0 where
  pub queued : pending codec s' ≡ pending codec s
  pub sound : IsSpool s'

pub save_state-fails :
    (s : Spool) → next_fails s.faults ≡ true → save_state s ≡ (some save_failed, used s)
unfolding save_state
save_state-fails s h = rw h refl

pub save_state-works :
    (s : Spool)
    → next_fails s.faults ≡ false
    → save_state s ≡ (none, record (used s) { saved = s.state })
unfolding save_state
save_state-works s h = rw h refl

save_state-Keeps : (codec : Codec) (s : Spool) → IsSpool s → Keeps codec s (save_state s).1
unfolding save_state
save_state-Keeps codec s ok = elim (Bool-cases (next_fails s.faults)) [
  | inl fails ↦
      rw fails
        (record { queued = refl; sound = record { unique = ok.unique; persisted = ok.persisted } })
  | inr works ↦ rw works (record {
    queued = refl;
    sound = record { unique = ok.unique; persisted = Agree-refl s.state.offsets s.files };
  })
]

forget-Keeps :
    (codec : Codec) (name : String) (content : Bytes) (s : Spool)
    → IsSpool s
    → lookup name s.files ≡ some content
    → length content ≤ offset_of name s.state.offsets
    → Keeps codec s (forget name s)
forget-Keeps codec name content s ok there past = record {
  queued =
      queue-erase codec name s.state.offsets s.files ok.unique (λ c e. ground (arith, e, there));
  sound = record {
    unique = erase-IsMap name s.files ok.unique;
    persisted = Agree-erase name s.saved.offsets s.state.offsets s.files ok.persisted;
  };
}

-- The files that the loop has still to visit are there.
abbrev pub Listed : Dict String Bytes → Dict String Bytes → Type 0
Listed [] files = Unit
Listed ((name, content) ∷ rest) files = (lookup name files ≡ some content) × Listed rest files

Listed-erase :
    (name : String) (rest files : Dict String Bytes)
    → lookup name rest ≡ none
    → Listed rest files
    → Listed rest (erase name files)
Listed-erase name [] files absent h = tt
Listed-erase name ((j, c) ∷ rest) files absent h = (
  ground (arith, eq_iff j name, eq_iff name j, lookup-erase name j files),
  Listed-erase name rest files (ground (arith, eq_iff j name)) h.1,
)

Listed-cons :
    (j : String) (c : Bytes) (rest files : Dict String Bytes)
    → lookup j rest ≡ none
    → Listed rest files
    → Listed rest ((j, c) ∷ files)
Listed-cons j c [] files absent h = tt
Listed-cons j c ((k, d) ∷ rest) files absent h = (
  ground (arith, eq_iff j k, eq_iff k j),
  Listed-cons j c rest files (ground (arith, eq_iff k j)) h.1,
)

pub Listed-refl : (files : Dict String Bytes) → IsMap files → Listed files files
Listed-refl [] h = tt
Listed-refl ((j, c) ∷ files) h =
    (ground (arith, eq_iff j j), Listed-cons j c files files h.0 (Listed-refl files h.1))

pub remove_acked_loop_step :
    (name : String) (content : Bytes) (rest : Dict String Bytes) (changed : Bool) (s : Spool)
    → ((remove_acked_loop ((name, content) ∷ rest) changed s ≡ remove_acked_loop rest changed s)
        × (offset_of name s.state.offsets < length content))
      ⊎ (((remove_acked_loop ((name, content) ∷ rest) changed s
              ≡ (some remove_failed, changed, used s))
            × (next_fails s.faults ≡ true))
          ⊎ ((remove_acked_loop ((name, content) ∷ rest) changed s
                ≡ remove_acked_loop rest true (forget name s))
              × (length content ≤ offset_of name s.state.offsets)))
unfolding remove_acked_loop
remove_acked_loop_step name content rest changed s =
    elim (Bool-cases (leb (length content) (offset_of name s.state.offsets))) [
      | inl past ↦ elim (Bool-cases (next_fails s.faults)) [
        | inl fails ↦ inr (inl (rw (past, fails) refl, fails))
        | inr works ↦ inr (inr (rw (past, works) refl, ground arith))
      ]
      | inr left ↦ inl (rw left refl, ground arith)
    ]

pub Keeps-trans :
    (codec : Codec) (s t u : Spool) → Keeps codec s t → Keeps codec t u → Keeps codec s u
Keeps-trans codec s t u h k = record { queued = k.queued ∙ h.queued; sound = k.sound }

remove_acked_loop-Keeps :
    (codec : Codec) (rest : Dict String Bytes) (changed : Bool) (s : Spool)
    → IsMap rest
    → Listed rest s.files
    → IsSpool s
    → Keeps codec s (remove_acked_loop rest changed s).2
unfolding remove_acked_loop
remove_acked_loop-Keeps codec [] changed s unique there ok = record { queued = refl; sound = ok }
remove_acked_loop-Keeps codec ((name, content) ∷ rest) changed s unique there ok =
    elim (remove_acked_loop_step name content rest changed s) [
      | inl (e, _) ↦ rw e (remove_acked_loop-Keeps codec rest changed s unique.1 there.1 ok)
      | inr (inl (e, _)) ↦ rw e (record {
        queued = refl;
        sound = record { unique = ok.unique; persisted = ok.persisted };
      })
      | inr (inr (e, past)) ↦
          let gone = forget-Keeps codec name content s ok there.0 past in
          rw e (
            Keeps-trans codec s (forget name s) _ gone (
              remove_acked_loop-Keeps codec rest true (forget name s) unique.1
                (Listed-erase name rest s.files unique.0 there.1) gone.sound))
    ]

save_if_changed-Keeps :
    (codec : Codec) (s : Spool) (error : Option SpoolError) (changed : Bool) (t : Spool)
    → Keeps codec s t
    → Keeps codec s (save_if_changed (error, changed, t)).1
unfolding save_if_changed
save_if_changed-Keeps codec s (some e) changed t h = h
save_if_changed-Keeps codec s none true t h =
    Keeps-trans codec s t _ h (save_state-Keeps codec t h.sound)
save_if_changed-Keeps codec s none false t h = h

-- The removal of files that are read to their end takes nothing from the queue, whichever write
-- fails.
pub remove_acked-Keeps : (codec : Codec) (s : Spool) → IsSpool s → Keeps codec s (remove_acked s).1
unfolding remove_acked
remove_acked-Keeps codec s ok =
    let (error, changed, t) = remove_acked_loop s.files false s in
    save_if_changed-Keeps codec s error changed t
      (remove_acked_loop-Keeps codec s.files false s ok.unique (Listed-refl s.files ok.unique) ok)
