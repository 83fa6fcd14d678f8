-- ===== src/Collector/Recovery/Cleaning.antt =====
-- What `recoverPartialTails` leaves (internal/collector/spool.go).
use text.Mathlib.TextEquality.{eq_iff}
use on_watch.Base.{
  ℕ, zero, suc, ◌+◌, ◌-◌, ◌≡◌, ◌≢◌, refl, sym, ap, ◌∙◌, true, false, not, ◌&&◌, Option, none, some,
  List, [], ◌∷◌, ◌++◌, map, String, arith, length, ◌==◌, Dict, lookup, insert, lookup-insert,
  lookup-insert_self, string_eq, IsMap, insert-IsMap, Bool-cases, inl, inr, ◌⊎◌,
}
use on_watch.Collector.Lines.{Bytes, seek, ends_clean}
use on_watch.Collector.Spool.{Codec, Spool, offset_of, first_bytes, next_fails, used}
use on_watch.Collector.Spool.Cursors.{queue, queue-cons, waiting}
use on_watch.Collector.Spool.Files.{Agree-insert}
use on_watch.Collector.Spool.Removal.{IsSpool, Keeps, Keeps-trans, Listed, Listed-refl}
use on_watch.Collector.Recovery.{
  Recovered, RecoverError, oversized, backup_failed, truncate_failed, sync_failed, cut_after_last,
  cut_file, recover_file, recover_files, recover_partial_tails, tail_bytes,
}
use on_watch.Collector.Recovery.Truncation.{kept, kept-lines, kept-clean, cut-seek, seek-clean_back}

-- A file in whose place another one stands with the same lines left.
queue-insert :
    (codec : Codec) (o : Dict String ℕ) (name : String) (content shorter : Bytes)
    (files : Dict String Bytes)
    → lookup name files ≡ some content
    → waiting codec o name shorter ≡ waiting codec o name content
    → queue codec o (insert name shorter files) ≡ queue codec o files
queue-insert codec o name content shorter [] there same = absurd (cc)
queue-insert codec o name content shorter ((j, c) ∷ files) there same =
    elim (Bool-cases (string_eq.beq j name)) [
      | inl here ↦
          let here' : j ≡ name = (eq_iff j name).0 here in
          let it : c ≡ content = ground arith in
          rw (here, here', it)
            (queue-cons codec o name shorter files
              ∙ ap (λ q. q ++ queue codec o files) same
              ∙ sym (queue-cons codec o name content files))
      | inr other ↦
          let ih = queue-insert codec o name content shorter files (ground arith) same in
          rw other (
            queue-cons codec o j c (insert name shorter files)
            ∙ ap (λ q. waiting codec o j c ++ q) ih
            ∙ sym (queue-cons codec o j c files))
    ]

-- What the loop has not looked at yet may end in an incomplete record.
abbrev CleanBut : Dict String Bytes → Dict String Bytes → Type 0
CleanBut rest files =
    (name : String) (content : Bytes)
    → lookup name files ≡ some content
    → (ends_clean content ≡ true) ⊎ (lookup name rest ≡ some content)

-- A file that is read as clean is.
tail_clean :
    (content : Bytes)
    → ends_clean (seek (length content - tail_bytes) content) ≡ true
    → ends_clean content ≡ true
unfolding seek
tail_clean [] h = h
tail_clean (b ∷ bs) h = seek-clean_back (length (b ∷ bs) - tail_bytes) (b ∷ bs) (omega arith) h

-- Where the cut lies in the whole file.
cut_whole :
    (start : ℕ) (content : Bytes)
    → (cut_after_last (seek start content) == 0 && not (start == 0)) ≡ false
    → start + cut_after_last (seek start content) ≡ cut_after_last content
unfolding seek
cut_whole zero content h = omega arith
cut_whole (suc n) content h = sym (cut-seek (suc n) content (λ e. ground arith))

-- What the visit of one file does.
record Visits (codec : Codec) (name : String) (r : Recovered)
    (res : Option RecoverError × Recovered) : Type 0 where
  keeps : Keeps codec r.spool res.1.spool
  clean : res.0 ≡ none → (c : Bytes) → lookup name res.1.spool.files ≡ some c → ends_clean c ≡ true
  others : (j : String) → name ≢ j → lookup j res.1.spool.files ≡ lookup j r.spool.files

-- The spool is as it was, but for the writes to come.
leaves :
    (codec : Codec) (name : String) (r r' : Recovered) (error : Option RecoverError)
    → IsSpool r.spool
    → r'.spool.files ≡ r.spool.files
    → r'.spool.state ≡ r.spool.state
    → r'.spool.saved ≡ r.spool.saved
    → (error ≡ none → (c : Bytes) → lookup name r.spool.files ≡ some c → ends_clean c ≡ true)
    → Visits codec name r (error, r')
leaves codec name r r' error ok files state saved clean = record {
  keeps = record {
    queued = rw (files, state) refl;
    sound = record {
      unique = rw files ok.unique;
      persisted = rw (files, state, saved) ok.persisted;
    };
  };
  clean = λ e c there. clean e c (rw files at there);
  others = λ j apart. ap (lookup j) files;
}

truncated-Visits :
    (codec : Codec) (name : String) (content : Bytes) (r r' : Recovered)
    (error : Option RecoverError)
    → IsSpool r.spool
    → lookup name r.spool.files ≡ some content
    → r'.spool.files ≡ insert name (kept content) r.spool.files
    → r'.spool.state ≡ r.spool.state
    → r'.spool.saved ≡ r.spool.saved
    → Visits codec name r (error, r')
truncated-Visits codec name content r r' error ok there files state saved =
    let o = r.spool.state.offsets in
    let same : waiting codec o name (kept content) ≡ waiting codec o name content =
      ap (map codec.unmarshal) (kept-lines (offset_of name o) content) in
    record {
      keeps = record {
        queued =
            rw (files, state)
              (queue-insert codec o name content (kept content) r.spool.files there same);
        sound = record {
          unique = rw files (insert-IsMap name (kept content) r.spool.files ok.unique);
          persisted =
              rw (files, state, saved)
                (Agree-insert r.spool.saved.offsets o name (kept content) content r.spool.files
                  there ok.persisted);
        };
      };
      clean = λ e c found.
          let known =
            sym found
            ∙ ap (lookup name) files
            ∙ lookup-insert_self name (kept content) r.spool.files in
          let it : c ≡ kept content = cc (known) in rw it (kept-clean content);
      others = λ j apart.
          ap (lookup j) files
          ∙ ground (arith, lookup-insert name j (kept content) r.spool.files, eq_iff name j);
    }

cut_file-Visits :
    (codec : Codec) (name : String) (content : Bytes) (start cut : ℕ) (r : Recovered)
    → IsSpool r.spool
    → lookup name r.spool.files ≡ some content
    → start + cut ≡ cut_after_last content
    → Visits codec name r (cut_file name content start cut r)
unfolding cut_file
cut_file-Visits codec name content start cut r ok there whole =
    elim (Bool-cases (next_fails r.spool.faults)) [
      | inl fails ↦ rw fails (
          leaves codec name r (record r { spool = used r.spool }) (some backup_failed) ok refl refl
            refl (λ e. absurd (cc)))
      | inr works ↦ elim (Bool-cases (next_fails (used r.spool).faults)) [
        | inl fails ↦
            rw (works, fails)
              (leaves codec name r
                (record {
                  backups = seek cut (seek start content) ∷ r.backups;
                  spool = used (used r.spool);
                })
                (some truncate_failed) ok refl refl refl (λ e. absurd (cc)))
        | inr truncates ↦
            let files = insert name (first_bytes (start + cut) content) r.spool.files in
            let r' : Recovered = record {
              backups = seek cut (seek start content) ∷ r.backups;
              spool = record (used (used (used r.spool))) { files = files };
            } in
            let visits : (error : Option RecoverError) → Visits codec name r (error, r') = λ error.
              truncated-Visits codec name content r r' error ok there
                (ap (λ n. insert name (first_bytes n content) r.spool.files) whole) refl refl in
            elim (Bool-cases (next_fails (used (used r.spool)).faults)) [
              | inl fails ↦ rw (works, truncates, fails) (visits (some sync_failed))
              | inr syncs ↦ rw (works, truncates, syncs) (visits none)
            ]
      ]
    ]

recover_file-Visits :
    (codec : Codec) (name : String) (content : Bytes) (r : Recovered)
    → IsSpool r.spool
    → lookup name r.spool.files ≡ some content
    → Visits codec name r (recover_file name content r)
unfolding recover_file
recover_file-Visits codec name content r ok there =
    let start = length content - tail_bytes in
    let tail = seek start content in
    elim (Bool-cases (ends_clean tail)) [
      | inl clean ↦ rw clean (
          leaves codec name r r none ok refl refl refl (λ e c found.
            let known = sym found ∙ there in
            let it : c ≡ content = cc (known) in rw it (tail_clean content clean)))
      | inr torn ↦ elim (Bool-cases (cut_after_last tail == 0 && not (start == 0))) [
        | inl large ↦
            rw (torn, large)
              (leaves codec name r r (some oversized) ok refl refl refl (λ e. absurd (cc)))
        | inr cut ↦
            rw (torn, cut)
              (cut_file-Visits codec name content start (cut_after_last tail) r ok there
                (cut_whole start content cut))
      ]
    ]

Listed-others :
    (name : String) (rest files files' : Dict String Bytes)
    → lookup name rest ≡ none
    → ((j : String) → name ≢ j → lookup j files' ≡ lookup j files)
    → Listed rest files
    → Listed rest files'
Listed-others name [] files files' absent same h = tt
Listed-others name ((j, c) ∷ rest) files files' absent same h =
    let apart : name ≢ j = λ e. ground (arith, eq_iff j name) in
    let absent' : lookup name rest ≡ none = ground (arith, eq_iff j name) in
    (same j apart ∙ h.0, Listed-others name rest files files' absent' same h.1)

CleanBut-visit :
    (codec : Codec) (name : String) (content : Bytes) (rest : Dict String Bytes) (r : Recovered)
    (res : Option RecoverError × Recovered)
    → Visits codec name r res
    → CleanBut ((name, content) ∷ rest) r.spool.files
    → res.0 ≡ none
    → CleanBut rest res.1.spool.files
CleanBut-visit codec name content rest r res v h fine k c found =
    elim (Bool-cases (string_eq.beq name k)) [
      | inl same ↦
          let same' : name ≡ k = (eq_iff name k).0 same in inl (v.clean fine c (rw same' found))
      | inr other ↦
          let apart : name ≢ k = λ e. ground (arith, eq_iff name k) in
          elim (h k c (sym (v.others k apart) ∙ found)) [
            | inl clean ↦ inl clean
            | inr listed ↦ inr (ground arith)
          ]
    ]

-- What the recovery leaves: the same queue, and, unless it returns an error, only files that end
-- with a newline or are empty.
pub record Cleans (codec : Codec) (s : Spool) (res : Option RecoverError × Recovered) : Type 0 where
  pub keeps : Keeps codec s res.1.spool
  pub clean :
      res.0 ≡ none
      → (name : String) (c : Bytes) → lookup name res.1.spool.files ≡ some c
      → ends_clean c ≡ true

recover_files-Cleans :
    (codec : Codec) (s : Spool) (rest : Dict String Bytes) (error : Option RecoverError)
    (r : Recovered)
    → IsMap rest
    → Keeps codec s r.spool
    → Listed rest r.spool.files
    → (error ≡ none → CleanBut rest r.spool.files)
    → Cleans codec s (recover_files rest (error, r))
unfolding recover_files
recover_files-Cleans codec s rest (some e) r unique keeps listed but = record {
  keeps = keeps;
  clean = λ none_left. absurd (cc);
}
recover_files-Cleans codec s [] none r unique keeps listed but = record {
  keeps = keeps;
  clean = λ e name c found. elim (but refl name c found) [
    | inl clean ↦ clean
    | inr missing ↦ absurd (cc)
  ];
}
recover_files-Cleans codec s ((name, content) ∷ rest) none r unique keeps listed but =
    let v = recover_file-Visits codec name content r keeps.sound listed.0 in
    let (error, r') = recover_file name content r in
    recover_files-Cleans codec s rest error r' unique.1
      (Keeps-trans codec s r.spool r'.spool keeps v.keeps)
      (Listed-others name rest r.spool.files r'.spool.files unique.0 v.others listed.1)
      (CleanBut-visit codec name content rest r (recover_file name content r) v (but refl))

-- In a spool whose file names differ and whose cursors on disk agree with those in memory,
-- `recoverPartialTails` leaves the queue as it was, whichever write fails; where it returns no
-- error, every event file is empty or ends with a newline.
pub recover_partial_tails-Cleans :
    (codec : Codec) (backups : List Bytes) (s : Spool)
    → IsSpool s
    → Cleans codec s (recover_partial_tails backups s)
unfolding recover_partial_tails
recover_partial_tails-Cleans codec backups s ok =
    recover_files-Cleans codec s s.files none (record { backups = backups; spool = s }) ok.unique
      (record { queued = refl; sound = ok }) (Listed-refl s.files ok.unique)
      (λ e name c found. inr found)
