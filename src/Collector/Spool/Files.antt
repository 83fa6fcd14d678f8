-- ===== src/Collector/Spool/Files.antt =====
-- What a write at the end of an event file, and a new file, do to what is queued
-- (internal/collector/spool.go).
use mathlib.Core.List.{append_assoc, map-append}
use text.Mathlib.Text.{is_lt}
use text.Mathlib.TextEquality.{eq_iff}
use Prim.Native.String.{compare}
use on_watch.Base.{
  ℕ, ◌≤◌, ◌≡◌, refl, sym, ap, ◌∙◌, true, false, Option, none, some, List, [], ◌∷◌, ◌++◌, map,
  String, arith, length, Dict, lookup, insert, string_eq, IsMap, Bool-cases, Option-cases, inl, inr,
  if◌then◌else◌,
}
use on_watch.Ingest.{Event}
use on_watch.Collector.Lines.{
  Bytes, seek, complete_lines, ends_clean, seek_front, seek-nil, seek-clean, complete_lines-append,
  complete_lines-nil,
}
use on_watch.Collector.Spool.{Codec, offset_of, file_of_day, insert_sorted}
use on_watch.Collector.Spool.Cursors.{queue, queue-cons, waiting, Agree}

-- The queue with some records added somewhere.
pub record Adds (more before after : List (Option Event)) : Type 0 where
  pub front : List (Option Event)
  pub back : List (Option Event)
  pub was : before ≡ front ++ back
  pub is : after ≡ front ++ (more ++ back)

waiting-append :
    (codec : Codec) (o : Dict String ℕ) (name : String) (content piece : Bytes)
    → offset_of name o ≤ length content
    → ends_clean content ≡ true
    → waiting codec o name (content ++ piece)
      ≡ waiting codec o name content ++ map codec.unmarshal (complete_lines piece)
waiting-append codec o name content piece within clean =
    let n = offset_of name o in
    ap (λ bs. map codec.unmarshal (complete_lines bs)) (seek_front n content piece within)
    ∙ ap (map codec.unmarshal)
        (complete_lines-append (seek n content) piece (seek-clean n content clean))
    ∙ map-append codec.unmarshal (complete_lines (seek n content)) (complete_lines piece)

-- A write at the end of a file that ends with a newline queues the lines that are written.
pub queue-extend :
    (codec : Codec) (o : Dict String ℕ) (name : String) (content piece : Bytes)
    (files : Dict String Bytes)
    → lookup name files ≡ some content
    → offset_of name o ≤ length content
    → ends_clean content ≡ true
    → Adds
        (map codec.unmarshal (complete_lines piece))
        (queue codec o files)
        (queue codec o (insert name (content ++ piece) files))
queue-extend codec o name content piece [] there within clean = absurd (cc)
queue-extend codec o name content piece ((j, c) ∷ files) there within clean =
    let more = map codec.unmarshal (complete_lines piece) in
    elim (Bool-cases (string_eq.beq j name)) [
      | inl same ↦
          let same' : j ≡ name = (eq_iff j name).0 same in
          let it : c ≡ content = ground arith in
          record {
            front = waiting codec o name content;
            back = queue codec o files;
            was = queue-cons codec o j c files ∙ rw (same', it) refl;
            is =
                rw
                  (
                    same,
                    queue-cons codec o name (content ++ piece) files,
                    waiting-append codec o name content piece within clean,
                  )
                  (append_assoc (waiting codec o name content) more (queue codec o files));
          }
      | inr other ↦
          let ih = queue-extend codec o name content piece files (ground arith) within clean in
          record {
            front = waiting codec o j c ++ ih.front;
            back = ih.back;
            was =
                queue-cons codec o j c files
                ∙ ap (λ q. waiting codec o j c ++ q) ih.was
                ∙ sym (append_assoc (waiting codec o j c) ih.front ih.back);
            is =
                rw (other, queue-cons codec o j c (insert name (content ++ piece) files), ih.is)
                  (sym (append_assoc (waiting codec o j c) ih.front (more ++ ih.back)));
          }
    ]

pub Agree-insert :
    (o p : Dict String ℕ) (name : String) (c d : Bytes) (files : Dict String Bytes)
    → lookup name files ≡ some d
    → Agree o p files
    → Agree o p (insert name c files)
Agree-insert o p name c d [] there h = absurd (cc)
Agree-insert o p name c d ((j, b) ∷ files) there h = elim (Bool-cases (string_eq.beq j name)) [
  | inl same ↦ let same' : j ≡ name = (eq_iff j name).0 same in rw same (rw same' at h.0, h.1)
  | inr other ↦ rw other (h.0, Agree-insert o p name c d files (ground arith) h.1)
]

waiting_empty : (codec : Codec) (o : Dict String ℕ) (name : String) → waiting codec o name [] ≡ []
waiting_empty codec o name = rw (seek-nil (offset_of name o), complete_lines-nil) refl

-- The new file is empty.
pub queue-insert_sorted :
    (codec : Codec) (o : Dict String ℕ) (name : String) (files : Dict String Bytes)
    → queue codec o (insert_sorted name [] files) ≡ queue codec o files
queue-insert_sorted codec o name [] =
    queue-cons codec o name [] [] ∙ rw (waiting_empty codec o name) refl
queue-insert_sorted codec o name ((j, c) ∷ files) = elim (Bool-cases (is_lt (compare j name))) [
  | inl before ↦ rw before (
      queue-cons codec o j c (insert_sorted name [] files)
      ∙ ap (λ q. waiting codec o j c ++ q) (queue-insert_sorted codec o name files)
      ∙ sym (queue-cons codec o j c files))
  | inr here ↦
      rw here (queue-cons codec o name [] ((j, c) ∷ files) ∙ rw (waiting_empty codec o name) refl)
]

pub lookup-insert_sorted :
    (name k : String) (c : Bytes) (files : Dict String Bytes)
    → lookup name files ≡ none
    → lookup k (insert_sorted name c files)
      ≡ (if string_eq.beq name k then some c else lookup k files)
lookup-insert_sorted name k c [] new = refl
lookup-insert_sorted name k c ((j, d) ∷ files) new =
    ground (arith, eq_iff j name, eq_iff j k, eq_iff name k, lookup-insert_sorted name k c files)

pub insert_sorted-IsMap :
    (name : String) (c : Bytes) (files : Dict String Bytes)
    → lookup name files ≡ none
    → IsMap files
    → IsMap (insert_sorted name c files)
insert_sorted-IsMap name c [] new unique = (refl, tt)
insert_sorted-IsMap name c ((j, d) ∷ files) new unique =
    let other : string_eq.beq j name ≡ false = ground arith in
    let other' : string_eq.beq name j ≡ false = ground (arith, eq_iff j name, eq_iff name j) in
    let new' : lookup name files ≡ none = ground arith in
    let ih = insert_sorted-IsMap name c files new' unique.1 in
    elim (Bool-cases (is_lt (compare j name))) [
      | inl before ↦ rw before (rw (lookup-insert_sorted name j c files new', other') unique.0, ih)
      | inr here ↦ rw here (new, unique)
    ]

pub Agree-insert_sorted :
    (o p : Dict String ℕ) (name : String) (c : Bytes) (files : Dict String Bytes)
    → offset_of name o ≡ offset_of name p
    → Agree o p files
    → Agree o p (insert_sorted name c files)
Agree-insert_sorted o p name c [] same h = (same, tt)
Agree-insert_sorted o p name c ((j, d) ∷ files) same h =
    elim (Bool-cases (is_lt (compare j name))) [
      | inl before ↦ rw before (h.0, Agree-insert_sorted o p name c files same h.1)
      | inr here ↦ rw here (same, h)
    ]

-- The file of the day is one of the directory.
pub file_of_day-lookup :
    (prefix name : String) (content : Bytes) (files : Dict String Bytes)
    → IsMap files
    → file_of_day prefix files ≡ some (name, content)
    → lookup name files ≡ some content
file_of_day-lookup prefix name content [] unique h = absurd (cc)
file_of_day-lookup prefix name content ((j, c) ∷ files) unique h =
    elim (Option-cases (file_of_day prefix files)) [
      | inl last ↦ ground (arith, last, eq_iff j name)
      | inr (later, found) ↦
          let it : later ≡ (name, content) = ground (arith, found) in
          let ih = file_of_day-lookup prefix name content files unique.1 (found ∙ ap some it) in
          ground (arith, ih, unique.0, eq_iff j name)
    ]
