-- ===== src/Collector/Spool/Distinct.antt =====
-- No batch has one event twice: a replay waits for the next batch (internal/collector/spool.go).
use mathlib.Core.List.{append-nil, map-append}
use mathlib.Core.Path.{subst}
use on_watch.Base.{
  ℕ, ◌+◌, ◌≡◌, refl, sym, false, some, List, [], ◌∷◌, ◌++◌, map, String, length, Dict, inl, inr,
}
use on_watch.Ingest.{Event, has_duplicate}
use on_watch.Collector.Lines.{Bytes, seek, complete_lines}
use on_watch.Collector.Spool.{Codec, Spool, SpoolRecord, walk_lines, walk_files, offset_of, batch}
use on_watch.Collector.Spool.Reading.{walk_lines_step, walk_lines-nil}
use on_watch.Collector.Spool.Batches.{walk_files_step, walk_files-nil, read_file}

abbrev pub sent : List SpoolRecord → List Event
sent rs = map (λ r. SpoolRecord.event r) rs

module _ (codec : Codec) (limit max_bytes : ℕ) where
  -- What is new after a file is new after its records.
  walk_lines-distinct :
      (name : String) (position count : ℕ) (seen : List String) (total : ℕ) (lines : List Bytes)
      (es : List Event)
      → let w = walk_lines codec limit max_bytes name position count seen total lines in
        has_duplicate w.seen es ≡ false → has_duplicate seen (sent w.records ++ es) ≡ false
  walk_lines-distinct name position count seen total [] es h =
      let e = walk_lines-nil codec limit max_bytes name position count seen total in
      rw e (rw e at h)
  walk_lines-distinct name position count seen total (line ∷ lines) es h =
      elim (walk_lines_step codec limit max_bytes name position count seen total line lines) [
        | inl (ended, e, _) ↦ rw e (rw e at h)
        | inr (event, _, _, first, e) ↦
            rw (e, first)
              (walk_lines-distinct name (position + length line) (count + 1) (event.event_id ∷ seen)
                (total + length line) lines es (rw e at h))
      ]

  walk_files-distinct :
      (o : Dict String ℕ) (count : ℕ) (seen : List String) (total : ℕ) (files : Dict String Bytes)
      (rs : List SpoolRecord)
      → walk_files codec limit max_bytes o count seen total files ≡ some rs
      → has_duplicate seen (sent rs) ≡ false
  walk_files-distinct o count seen total [] rs h =
      let empty : rs ≡ [] = cc (walk_files-nil codec limit max_bytes o count seen total) in
      rw empty refl
  walk_files-distinct o count seen total ((name, content) ∷ files) rs h =
      let w = read_file codec limit max_bytes o count seen total name content in
      let here =
        walk_lines-distinct name (offset_of name o) count seen total
          (complete_lines (seek (offset_of name o) content)) in
      elim (walk_files_step codec limit max_bytes o count seen total name content files rs h) [
        | inl (all, _) ↦
            subst (λ rs. has_duplicate seen (sent rs) ≡ false) all
              (subst (λ es. has_duplicate seen es ≡ false) (append-nil (sent w.records))
                (here [] refl))
        | inr (more, _, _, _, found, all) ↦
            let ih = walk_files-distinct o w.count w.seen w.total files more found in
            subst (λ rs. has_duplicate seen (sent rs) ≡ false) all
              (subst (λ es. has_duplicate seen es ≡ false)
                (sym (map-append (λ r. SpoolRecord.event r) w.records more)) (here (sent more) ih))
      ]

  pub batch-distinct :
      (s : Spool) (rs : List SpoolRecord)
      → batch codec limit max_bytes s ≡ some rs
      → has_duplicate [] (sent rs) ≡ false
  unfolding batch
  batch-distinct s rs h = walk_files-distinct s.state.offsets 0 [] 0 s.files rs h
