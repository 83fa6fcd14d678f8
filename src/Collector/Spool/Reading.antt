-- ===== src/Collector/Spool/Reading.antt =====
-- The loop of `Batch` over the lines of one file (internal/collector/spool.go).
use on_watch.Base.{
  ℕ, ◌+◌, ◌≤◌, ◌<◌, ◌≡◌, ◌≢◌, refl, ap, true, false, none, some, List, [], ◌∷◌, ◌++◌, map, String,
  arith, length, Dict, insert, string_eq, All, ltb, leb, Bool-cases, Option-cases, inl, inr, ◌⊎◌,
  ◌&&◌,
}
use on_watch.Ingest.{Event, has_seen}
use on_watch.Collector.Lines.{Bytes, seek, complete_lines, complete_lines-seek, seek_add}
use on_watch.Collector.Spool.{
  Codec, SpoolRecord, WalkEnd, at_end, stopped, bad, Walk, halted, add_record, walk_lines,
  offset_of, ack_offsets,
}
use on_watch.Collector.Spool.Cursors.{
  events, ack_offsets-nil, offset_of-insert_self, ack_offsets-cons,
}

-- Why the loop stops before a line.
abbrev pub Halts : Codec → ℕ → ℕ → List String → Bytes → WalkEnd → Type 0
Halts codec limit count seen line at_end = limit ≤ count
Halts codec limit count seen line bad = codec.unmarshal line ≡ none
Halts codec limit count seen line stopped = (0 < count) ⊎ (seen ≢ [])

has_seen-ne-nil : (id : String) (seen : List String) → has_seen id seen ≡ true → seen ≢ []
has_seen-ne-nil id [] h = cc
has_seen-ne-nil id (other ∷ seen) h = λ e. cc

Halts-at_end :
    (codec : Codec) (limit count : ℕ) (seen : List String) (line : Bytes) (ended : WalkEnd)
    → Halts codec limit count seen line ended
    → ended ≡ at_end
    → limit ≤ count
Halts-at_end codec limit count seen line at_end h e = h
Halts-at_end codec limit count seen line stopped h e = cc
Halts-at_end codec limit count seen line bad h e = cc

abbrev pub record_at : Event → String → ℕ → SpoolRecord
record_at event name next = record { event = event; file = name; end_offset = next }

module _ (codec : Codec) (limit max_bytes : ℕ) (name : String) where
  -- One round of the loop: it stops before the line, or takes its record.
  pub walk_lines_step :
      (position count : ℕ) (seen : List String) (total : ℕ) (line : Bytes) (lines : List Bytes)
      → ((ended : WalkEnd) × (walk_lines codec limit max_bytes name position count seen total
              (line ∷ lines)
            ≡ halted ended count seen total)
          × Halts codec limit count seen line ended)
        ⊎ ((event : Event) × (codec.unmarshal line ≡ some event)
            × (count < limit)
            × (has_seen event.event_id seen ≡ false)
            × (walk_lines codec limit max_bytes name position count seen total (line ∷ lines)
                ≡ add_record (record_at event name (position + length line)) (
                    walk_lines codec limit max_bytes name
                      (position + length line)
                      (count + 1)
                      (event.event_id ∷ seen)
                      (total + length line)
                      lines)))
  unfolding walk_lines
  walk_lines_step position count seen total line lines = elim (Bool-cases (leb limit count)) [
    | inl reached ↦ inl (at_end, rw reached refl, ground arith)
    | inr room ↦ elim (Bool-cases (ltb max_bytes (total + length line) && ltb 0 count)) [
      | inl large ↦ inl (stopped, rw (room, large) refl, inl (ground arith))
      | inr fits ↦ elim (Option-cases (codec.unmarshal line)) [
        | inl invalid ↦ inl (bad, rw (room, fits, invalid) refl, invalid)
        | inr (event, read) ↦ elim (Bool-cases (has_seen event.event_id seen)) [
          | inl again ↦ inl (
            stopped,
            rw (room, fits, read, again) refl,
            inr (has_seen-ne-nil event.event_id seen again),
          )
          | inr first ↦ inr (event, read, ground arith, first, rw (room, fits, read, first) refl)
        ]
      ]
    ]
  ]

module _ (codec : Codec) (limit max_bytes : ℕ) (name : String) where
  -- Every record that is read stands in the file.
  pub walk_lines-file :
      (position count : ℕ) (seen : List String) (total : ℕ) (lines : List Bytes)
      → All
          (λ r. SpoolRecord.file r ≡ name)
          (Walk.records (walk_lines codec limit max_bytes name position count seen total lines))
  unfolding walk_lines
  walk_lines-file position count seen total [] = tt
  walk_lines-file position count seen total (line ∷ lines) =
      elim (walk_lines_step codec limit max_bytes name position count seen total line lines) [
        | inl (ended, e, _) ↦ rw e tt
        | inr (event, _, _, _, e) ↦ rw e (
          refl,
          walk_lines-file (position + length line) (count + 1) (event.event_id ∷ seen)
              (total + length line) lines,
        )
      ]

  -- The counter counts the records, and does not pass `limit`.
  pub walk_lines-count :
      (position count : ℕ) (seen : List String) (total : ℕ) (lines : List Bytes)
      → count ≤ limit
      → let w = walk_lines codec limit max_bytes name position count seen total lines in
        (w.count ≡ count + length w.records) × (w.count ≤ limit)
  unfolding walk_lines
  walk_lines-count position count seen total [] h = omega arith
  walk_lines-count position count seen total (line ∷ lines) h =
      elim (walk_lines_step codec limit max_bytes name position count seen total line lines) [
        | inl (ended, e, _) ↦ rw e (omega arith)
        | inr (event, _, below, _, e) ↦
            let ih =
              walk_lines-count (position + length line) (count + 1) (event.event_id ∷ seen)
                (total + length line) lines (omega arith) in
            rw e (omega arith)
      ]

  pub walk_lines-nil :
      (position count : ℕ) (seen : List String) (total : ℕ)
      → walk_lines codec limit max_bytes name position count seen total []
        ≡ halted at_end count seen total
  unfolding walk_lines
  walk_lines-nil position count seen total = refl

  -- Acknowledging what was read moves the cursor to where the reading stopped: before it stand the
  -- records, after it what is left.
  pub walk_lines-ack :
      (content : Bytes) (position count : ℕ) (seen : List String) (total : ℕ) (lines : List Bytes)
      (o : Dict String ℕ)
      → offset_of name o ≡ position
      → complete_lines (seek position content) ≡ lines
      → let w = walk_lines codec limit max_bytes name position count seen total lines in
        let left = complete_lines (seek (offset_of name (ack_offsets w.records o)) content) in
        (map codec.unmarshal lines ≡ events w.records ++ map codec.unmarshal left)
        × (w.ended ≡ at_end → w.count < limit → left ≡ [])
  walk_lines-ack content position count seen total [] o at read =
      rw (walk_lines-nil position count seen total, ack_offsets-nil o, at, read) (refl, λ e h. refl)
  walk_lines-ack content position count seen total (line ∷ lines) o at read =
      elim (walk_lines_step codec limit max_bytes name position count seen total line lines) [
        | inl (ended, e, why) ↦
            rw (e, ack_offsets-nil o, at, read)
              (
                refl,
                λ done below.
                    absurd (omega (arith, Halts-at_end codec limit count seen line ended why done)),
              )
        | inr (event, decoded, _, _, e) ↦
            let next = position + length line in
            let seen' = event.event_id ∷ seen in
            let total' = total + length line in
            let w = walk_lines codec limit max_bytes name next (count + 1) seen' total' lines in
            let o' = insert name next o in
            let after = complete_lines-seek (seek position content) line lines read in
            let read' : complete_lines (seek next content) ≡ lines =
              rw (seek_add position (length line) next content refl) after.0 in
            let ih =
              walk_lines-ack content next (count + 1) seen' total' lines o'
                (offset_of-insert_self name next o) read' in
            let moved =
              ack_offsets-cons (record_at event name next) w.records o
                (omega (arith, at, after.1)) in
            rw (e, moved, decoded) (ap (λ l. some event ∷ l) ih.0, ih.1)
      ]
