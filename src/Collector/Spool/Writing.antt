-- ===== src/Collector/Spool/Writing.antt =====
-- The write at the end of an event file, whole or torn, and a new file
-- (internal/collector/spool.go).
use mathlib.Core.Path.{subst}
use on_watch.Base.{
  ℕ, ◌-◌, ◌≤◌, ◌≡◌, ◌≢◌, refl, sym, ap, ◌∙◌, true, false, Option, none, some, List, [], ◌∷◌, ◌++◌,
  map, String, length, lookup, insert, string_eq, insert-IsMap, Bool-cases, inl, inr, ◌⊎◌, ◌==◌,
  All,
}
use on_watch.Ingest.{Event}
use on_watch.Collector.Lines.{
  Bytes, newline, complete_lines, ends_clean, complete_lines_one, complete_lines-nil,
  complete_lines-other, extend_first,
}
use on_watch.Collector.Spool.{
  Codec, Spool, SpoolError, offset_of, insert_sorted, first_bytes, write_line, line_of, used,
}
use on_watch.Collector.Spool.Files.{
  Adds, queue-extend, Agree-insert, queue-insert_sorted, insert_sorted-IsMap, Agree-insert_sorted,
}
use on_watch.Collector.Spool.Removal.{IsSpool, pending, Keeps}

-- What `json.Marshal` writes for an event has no newline, and with one after it `json.Unmarshal`
-- reads it as `read`.
pub record Encodes (codec : Codec) (event read : Event) : Type 0 where
  pub plain : All (λ b. (b == newline) ≡ false) (codec.marshal event)
  pub decoded : codec.unmarshal (line_of codec event) ≡ some read

-- The name that `CreateTemp` finds: of no file, and of no cursor that a removed file left behind.
pub record IsFresh (name : String) (s : Spool) : Type 0 where
  pub absent : lookup name s.files ≡ none
  pub unread : offset_of name s.state.offsets ≡ 0
  pub unsaved : offset_of name s.saved.offsets ≡ 0

-- Either the event has joined the queue and the rest of it is as before, or there is an error and
-- the whole queue is as before.
pub record Appends (codec : Codec) (read : Event) (s : Spool) (r : Option SpoolError × Spool)
    : Type 0 where
  pub sound : IsSpool r.1
  pub outcome :
      Adds (some read ∷ []) (pending codec s) (pending codec r.1)
      ⊎ ((r.0 ≢ none) × (pending codec r.1 ≡ pending codec s))

-- A part of a line is no line; the whole is.
torn_lines :
    (n : ℕ) (text : Bytes)
    → All (λ b. (b == newline) ≡ false) text
    → let written = complete_lines (first_bytes n (text ++ newline ∷ [])) in
      (written ≡ []) ⊎ (written ≡ complete_lines (text ++ newline ∷ []))
torn_lines n [] plain = elim (Bool-cases (n == 0)) [
  | inl nothing ↦ inl (rw nothing complete_lines-nil)
  | inr all ↦ inr (rw all refl)
]
torn_lines n (b ∷ text) plain = elim (Bool-cases (n == 0)) [
  | inl nothing ↦ inl (rw nothing complete_lines-nil)
  | inr more ↦
      let others = complete_lines-other b (first_bytes (n - 1) (text ++ newline ∷ [])) plain.0 in
      elim (torn_lines (n - 1) text plain.1) [
        | inl part ↦ inl (rw more (others ∙ ap (extend_first b) part))
        | inr whole ↦ inr (
            rw more (
              others
              ∙ ap (extend_first b) whole
              ∙ sym (complete_lines-other b (text ++ newline ∷ []) plain.0)))
      ]
]

module _ (codec : Codec) (event read : Event) (code : Encodes codec event read) where
  decoded_line : map codec.unmarshal (complete_lines (line_of codec event)) ≡ some read ∷ []
  decoded_line = rw (complete_lines_one (codec.marshal event) code.plain, code.decoded) refl

  module _ (name : String) (content : Bytes) (s : Spool) (ok : IsSpool s)
      (there : lookup name s.files ≡ some content)
      (within : offset_of name s.state.offsets ≤ length content)
      (clean : ends_clean content ≡ true) where
    extended : Bytes → Spool
    extended piece = record s { files = insert name (content ++ piece) s.files }

    extended-IsSpool : (piece : Bytes) → IsSpool (extended piece)
    unfolding extended
    extended-IsSpool piece = record {
      unique = insert-IsMap name (content ++ piece) s.files ok.unique;
      persisted =
          Agree-insert s.saved.offsets s.state.offsets name (content ++ piece) content s.files there
            ok.persisted;
    }

    extended-Adds :
        (piece : Bytes) (more : List (Option Event))
        → map codec.unmarshal (complete_lines piece) ≡ more
        → Adds more (pending codec s) (pending codec (extended piece))
    unfolding extended
    extended-Adds piece more e =
        subst (λ more. Adds more (pending codec s) (pending codec (extended piece))) e
          (queue-extend codec s.state.offsets name content piece s.files there within clean)

    pub write_line-Appends :
        (torn : Option ℕ)
        → Appends codec read s (write_line name content (line_of codec event) torn s)
    unfolding extended
    write_line-Appends none = record {
      sound = extended-IsSpool (line_of codec event);
      outcome = inl (extended-Adds (line_of codec event) (some read ∷ []) decoded_line);
    }
    write_line-Appends (some n) =
        let piece = first_bytes n (line_of codec event) in
        elim (torn_lines n (codec.marshal event) code.plain) [
          | inl part ↦
              let same = extended-Adds piece [] (ap (map codec.unmarshal) part) in
              record {
                sound = extended-IsSpool piece;
                outcome = inr (λ e. cc, same.is ∙ sym same.was);
              }
          | inr whole ↦ record {
            sound = extended-IsSpool piece;
            outcome = inl (
                extended-Adds piece (some read ∷ [])
                  (ap (map codec.unmarshal) whole ∙ decoded_line));
          }
        ]

  pub refused :
      (error : SpoolError) (s t : Spool) → Keeps codec s t → Appends codec read s (some error, t)
  refused error s t h = record { sound = h.sound; outcome = inr (λ e. cc, h.queued) }

  pub new_file :
      (name : String) (s : Spool)
      → IsSpool s
      → IsFresh name s
      → Keeps codec s (record (used s) { files = insert_sorted name [] s.files })
  new_file name s ok fresh = record {
    queued = queue-insert_sorted codec s.state.offsets name s.files;
    sound = record {
      unique = insert_sorted-IsMap name [] s.files fresh.absent ok.unique;
      persisted =
          Agree-insert_sorted s.saved.offsets s.state.offsets name [] s.files
            (fresh.unsaved ∙ sym fresh.unread) ok.persisted;
    };
  }

  pub Keeps-Appends :
      (s t : Spool) (r : Option SpoolError × Spool)
      → Keeps codec s t
      → Appends codec read t r
      → Appends codec read s r
  Keeps-Appends s t r h k = record {
    sound = k.sound;
    outcome = elim k.outcome [
      | inl added ↦ inl (record {
        front = added.front;
        back = added.back;
        was = sym h.queued ∙ added.was;
        is = added.is;
      })
      | inr same ↦ inr (same.0, same.1 ∙ h.queued)
    ];
  }

  pub Keeps-refl : (s : Spool) → IsSpool s → Keeps codec s s
  Keeps-refl s ok = record { queued = refl; sound = ok }
