-- ===== src/Collector/Spool/Progress.antt =====
-- `Batch` gets on: it fails only at an invalid record, and is empty only if nothing is queued
-- (internal/collector/spool.go).
use mathlib.Core.Path.{subst}
use on_watch.Base.{
  ℕ, ◌+◌, ◌<◌, ◌≡◌, ◌≢◌, refl, ap, ◌∙◌, Option, none, some, List, [], ◌∷◌, ◌++◌, map, String, arith,
  length, Dict, All, Option-cases, inl, inr,
}
use on_watch.Ingest.{Event}
use on_watch.Collector.Lines.{Bytes, seek, complete_lines}
use on_watch.Collector.Spool.{
  Codec, Spool, SpoolRecord, WalkEnd, at_end, stopped, bad, Walk, halted, walk_lines, walk_files,
  offset_of, batch,
}
use on_watch.Collector.Spool.Cursors.{queue, queue-cons, queue-nil, waiting}
use on_watch.Collector.Spool.Reading.{Halts, walk_lines_step, walk_lines-nil}
use on_watch.Collector.Spool.Batches.{walk_files_step, walk_files_fails, walk_files-nil, read_file}
use on_watch.Collector.Spool.Removal.{pending}

abbrev pub AllValid : List (Option Event) → Type 0
AllValid es = All (λ e. e ≢ none) es

pub All-front {ℓ κ} :
    {A : Type ℓ} (P : A → Type κ) (xs ys : List A) → All P (xs ++ ys) → All P xs × All P ys
All-front P [] ys h = (tt, h)
All-front P (x ∷ xs) ys h = let rest = All-front P xs ys h.1 in ((h.0, rest.0), rest.1)

append_empty {ℓ} : {A : Type ℓ} (xs ys : List A) → xs ++ ys ≡ [] → (xs ≡ []) × (ys ≡ [])
append_empty [] ys h = (refl, h)
append_empty (x ∷ xs) ys h = absurd (cc)

Halts-bad :
    (codec : Codec) (limit count : ℕ) (seen : List String) (line : Bytes) (ended : WalkEnd)
    → Halts codec limit count seen line ended
    → ended ≡ bad
    → codec.unmarshal line ≡ none
Halts-bad codec limit count seen line bad h e = h
Halts-bad codec limit count seen line stopped h e = absurd (cc)
Halts-bad codec limit count seen line at_end h e = absurd (cc)

-- The first line of a batch is not put off.
Halts-first :
    (codec : Codec) (limit : ℕ) (line : Bytes) (ended : WalkEnd)
    → 0 < limit
    → Halts codec limit 0 [] line ended
    → ended ≡ bad
Halts-first codec limit line bad room h = refl
Halts-first codec limit line at_end room h = absurd (omega arith)
Halts-first codec limit line stopped room (inl h) = absurd (omega arith)
Halts-first codec limit line stopped room (inr h) = absurd (h refl)

module _ (codec : Codec) (limit max_bytes : ℕ) (name : String) where
  walk_lines-bad :
      (position count : ℕ) (seen : List String) (total : ℕ) (lines : List Bytes)
      → AllValid (map codec.unmarshal lines)
      → Walk.ended (walk_lines codec limit max_bytes name position count seen total lines) ≢ bad
  walk_lines-bad position count seen total [] valid =
      rw (walk_lines-nil codec limit max_bytes name position count seen total) (λ e. cc)
  walk_lines-bad position count seen total (line ∷ lines) valid =
      elim (walk_lines_step codec limit max_bytes name position count seen total line lines) [
        | inl (ended, e, why) ↦
            rw e (λ wrong. valid.0 (Halts-bad codec limit count seen line ended why wrong))
        | inr (event, _, _, _, e) ↦ rw e (
            walk_lines-bad (position + length line) (count + 1) (event.event_id ∷ seen)
              (total + length line) lines valid.1)
      ]

  walk_lines-first :
      (position total : ℕ) (lines : List Bytes)
      → 0 < limit
      → let w = walk_lines codec limit max_bytes name position 0 [] total lines in
        w.records ≡ [] → w.ended ≢ bad → (w ≡ halted at_end 0 [] total) × (lines ≡ [])
  walk_lines-first position total [] room none_read good =
      (walk_lines-nil codec limit max_bytes name position 0 [] total, refl)
  walk_lines-first position total (line ∷ lines) room none_read good =
      elim (walk_lines_step codec limit max_bytes name position 0 [] total line lines) [
        | inl (ended, e, why) ↦ absurd (good (rw e (Halts-first codec limit line ended room why)))
        | inr (event, _, _, _, e) ↦ absurd (cc (rw e at none_read))
      ]

module _ (codec : Codec) (limit max_bytes : ℕ) (o : Dict String ℕ) where
  walk_files-some :
      (count : ℕ) (seen : List String) (total : ℕ) (files : Dict String Bytes)
      → AllValid (queue codec o files)
      → walk_files codec limit max_bytes o count seen total files ≢ none
  walk_files-some count seen total [] valid =
      rw (walk_files-nil codec limit max_bytes o count seen total) (λ e. cc)
  walk_files-some count seen total ((name, content) ∷ files) valid =
      let w = read_file codec limit max_bytes o count seen total name content in
      let parts =
        All-front _ (waiting codec o name content) (queue codec o files)
          (rw (queue-cons codec o name content files) at valid) in
      let good =
        walk_lines-bad codec limit max_bytes name (offset_of name o) count seen total _ parts.0 in
      λ failed.
        elim (walk_files_fails codec limit max_bytes o count seen total name content files failed) [
          | inl wrong ↦ good wrong
          | inr later ↦ walk_files-some w.count w.seen w.total files parts.1 later
        ]

  walk_files-empty :
      (total : ℕ) (files : Dict String Bytes)
      → 0 < limit
      → total < max_bytes
      → AllValid (queue codec o files)
      → walk_files codec limit max_bytes o 0 [] total files ≡ some []
      → queue codec o files ≡ []
  walk_files-empty total [] room space valid h = queue-nil codec o
  walk_files-empty total ((name, content) ∷ files) room space valid h =
      let w = read_file codec limit max_bytes o 0 [] total name content in
      let parts =
        All-front _ (waiting codec o name content) (queue codec o files)
          (rw (queue-cons codec o name content files) at valid) in
      let good =
        walk_lines-bad codec limit max_bytes name (offset_of name o) 0 [] total _ parts.0 in
      let first =
        walk_lines-first codec limit max_bytes name (offset_of name o) total
          (complete_lines (seek (offset_of name o) content)) room in
      elim (walk_files_step codec limit max_bytes o 0 [] total name content files [] h) [
        | inl (all, why) ↦
            let f = first all good in
            elim (why (ap Walk.ended f.0)) [
              | inl full ↦ absurd (omega (arith, ap Walk.count f.0))
              | inr full ↦ absurd (omega (arith, ap Walk.total f.0))
            ]
        | inr (more, _, _, _, found, all) ↦
            let parts' = append_empty w.records more all in
            let f = first parts'.0 good in
            let found' =
              subst
                (λ v.
                  walk_files codec limit max_bytes o (Walk.count v) (Walk.seen v) (Walk.total v)
                    files
                  ≡ some more)
                f.0 found in
            let ih = walk_files-empty total files room space parts.1 (found' ∙ ap some parts'.1) in
            queue-cons codec o name content files ∙ rw (f.1, ih) refl
      ]

-- With a limit and a byte bound above 0, a queue of valid records always gives a batch, and one
-- that is not empty gives a batch that is not empty.
pub batch-some :
    (codec : Codec) (limit max_bytes : ℕ) (s : Spool)
    → 0 < limit
    → 0 < max_bytes
    → AllValid (pending codec s)
    → (rs : List SpoolRecord) × (batch codec limit max_bytes s ≡ some rs)
      × (rs ≡ [] → pending codec s ≡ [])
unfolding batch
batch-some codec limit max_bytes s room space valid =
    let o = s.state.offsets in
    elim (Option-cases (walk_files codec limit max_bytes o 0 [] 0 s.files)) [
      | inl failed ↦ absurd (walk_files-some codec limit max_bytes o 0 [] 0 s.files valid failed)
      | inr (rs, found) ↦ (
        rs,
        found,
        λ empty.
            walk_files-empty codec limit max_bytes o 0 s.files room space valid
              (found ∙ ap some empty),
      )
    ]
