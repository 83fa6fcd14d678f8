-- ===== src/Collector/Spool/Bounds.antt =====
-- The bound on the event files that `Append` keeps, and the bound on a batch
-- (internal/collector/spool.go).
use on_watch.Base.{
  ℕ, ◌+◌, ◌-◌, ◌≤◌, ◌≡◌, refl, sym, Option, none, some, List, [], ◌∷◌, ◌++◌, String, arith, length,
  length-append, Dict, lookup, insert, string_eq, IsMap, Bool-cases, Option-cases, inl, inr, ltb,
  beq_refl,
}
use on_watch.Ingest.{Event}
use on_watch.Collector.Lines.{Bytes, ends_clean, seek, complete_lines}
use on_watch.Collector.Spool.{
  Codec, Spool, SpoolError, SpoolRecord, offset_of, file_of_day, insert_sorted, first_bytes,
  disk_bytes, write_line, append_line, append_removed, append, line_of, remove_acked, next_fails,
  used, batch, walk_files, walk_lines,
}
use on_watch.Collector.Spool.Files.{lookup-insert_sorted, file_of_day-lookup}
use on_watch.Collector.Spool.Reading.{walk_lines-count}
use on_watch.Collector.Spool.Batches.{walk_files_step, walk_files-nil}
use on_watch.Collector.Spool.Removal.{IsSpool, remove_acked-Keeps}
use on_watch.Collector.Spool.Unread.{remove_acked-disk_bytes}
use on_watch.Collector.Spool.Writing.{IsFresh}

first_bytes-le : (n : ℕ) (bs : Bytes) → length (first_bytes n bs) ≤ length bs
first_bytes-le n [] = omega arith
first_bytes-le n (b ∷ bs) = ground (arith, first_bytes-le (n - 1) bs)

disk_bytes-insert :
    (name : String) (content piece : Bytes) (files : Dict String Bytes)
    → lookup name files ≡ some content
    → disk_bytes (insert name (content ++ piece) files) ≡ disk_bytes files + length piece
disk_bytes-insert name content piece [] there = absurd (cc)
disk_bytes-insert name content piece ((j, c) ∷ files) there =
    elim (Bool-cases (string_eq.beq j name)) [
      | inl same ↦
          let it : c ≡ content = ground arith in
          rw (same, it) (omega (arith, length-append content piece))
      | inr other ↦
          let ih = disk_bytes-insert name content piece files (ground arith) in
          rw other (omega (arith, ih))
    ]

disk_bytes-insert_sorted :
    (name : String) (files : Dict String Bytes)
    → disk_bytes (insert_sorted name [] files) ≡ disk_bytes files
disk_bytes-insert_sorted name [] = omega arith
disk_bytes-insert_sorted name ((j, c) ∷ files) = ground (arith, disk_bytes-insert_sorted name files)

write_line-disk_bytes :
    (name : String) (content line : Bytes) (torn : Option ℕ) (s : Spool)
    → lookup name s.files ≡ some content
    → disk_bytes (write_line name content line torn s).1.files ≤ disk_bytes s.files + length line
write_line-disk_bytes name content line none s there =
    omega (arith, disk_bytes-insert name content line s.files there)
write_line-disk_bytes name content line (some n) s there = omega (
  arith,
  disk_bytes-insert name content (first_bytes n line) s.files there,
  first_bytes-le n line,
)

append_line-disk_bytes :
    (prefix new_name : String) (line : Bytes) (torn : Option ℕ) (s : Spool)
    → IsMap s.files
    → lookup new_name s.files ≡ none
    → disk_bytes s.files ≤ s.max_bytes
    → disk_bytes (append_line prefix new_name line torn s).1.files ≤ s.max_bytes
unfolding append_line
append_line-disk_bytes prefix new_name line torn s unique new h =
    elim (Bool-cases (ltb s.max_bytes (disk_bytes s.files + length line))) [
      | inl over ↦ rw over h
      | inr fits ↦ elim (Option-cases (file_of_day prefix s.files)) [
        | inl none_yet ↦ elim (Bool-cases (next_fails s.faults)) [
          | inl fails ↦ rw (fits, none_yet, fails) h
          | inr works ↦
              let t : Spool = record (used s) { files = insert_sorted new_name [] s.files } in
              let there : lookup new_name t.files ≡ some [] =
                rw (lookup-insert_sorted new_name new_name [] s.files new, beq_refl new_name)
                  refl in
              rw (fits, none_yet, works)
                (ground (
                  arith,
                  write_line-disk_bytes new_name [] line torn t there,
                  disk_bytes-insert_sorted new_name s.files,
                ))
        ]
        | inr ((name, content), found) ↦
            let there = file_of_day-lookup prefix name content s.files unique found in
            elim (Bool-cases (ends_clean content)) [
              | inl clean ↦
                  rw (fits, found, clean)
                    (ground (arith, write_line-disk_bytes name content line torn s there))
              | inr dirty ↦ rw (fits, found, dirty) h
            ]
      ]
    ]

append_removed-disk_bytes :
    (prefix new_name : String) (line : Bytes) (torn : Option ℕ) (error : Option SpoolError)
    (s : Spool)
    → IsMap s.files
    → lookup new_name s.files ≡ none
    → disk_bytes s.files ≤ s.max_bytes
    → disk_bytes (append_removed prefix new_name line torn (error, s)).1.files ≤ s.max_bytes
unfolding append_removed
append_removed-disk_bytes prefix new_name line torn (some e) s unique new h = h
append_removed-disk_bytes prefix new_name line torn none s unique new h =
    append_line-disk_bytes prefix new_name line torn s unique new h

-- In a spool whose file names differ and whose cursors on disk agree with those in memory, the
-- event files never take more than `maxBytes` after `Append` if they did not before, also where a
-- write fails or is torn. The name of a new file is that of no file and of no cursor.
pub append-disk_bytes :
    (codec : Codec) (prefix new_name : String) (torn : Option ℕ) (event : Event) (s : Spool)
    → IsSpool s
    → IsFresh new_name (remove_acked s).1
    → disk_bytes s.files ≤ s.max_bytes
    → disk_bytes (append codec prefix new_name torn event s).1.files ≤ s.max_bytes
unfolding append
append-disk_bytes codec prefix new_name torn event s ok fresh h =
    let (error, t) = remove_acked s in
    let smaller = remove_acked-disk_bytes s in
    let kept = remove_acked-Keeps codec s ok in
    let within =
      append_removed-disk_bytes prefix new_name (line_of codec event) torn error t kept.sound.unique
        fresh.absent (omega (arith, smaller.0, smaller.1)) in
    omega (arith, within, smaller.1)

module _ (codec : Codec) (limit max_bytes : ℕ) (o : Dict String ℕ) where
  walk_files-length :
      (count : ℕ) (seen : List String) (total : ℕ) (files : Dict String Bytes)
      (rs : List SpoolRecord)
      → count ≤ limit
      → walk_files codec limit max_bytes o count seen total files ≡ some rs
      → count + length rs ≤ limit
  walk_files-length count seen total [] rs h read =
      let empty : rs ≡ [] = cc (walk_files-nil codec limit max_bytes o count seen total) in
      rw empty (omega arith)
  walk_files-length count seen total ((name, content) ∷ files) rs h read =
      let lines = complete_lines (seek (offset_of name o) content) in
      let w = walk_lines codec limit max_bytes name (offset_of name o) count seen total lines in
      let here =
        walk_lines-count codec limit max_bytes name (offset_of name o) count seen total lines h in
      elim (walk_files_step codec limit max_bytes o count seen total name content files rs read) [
        | inl (all, _) ↦ rw (sym all) (omega (arith, here.0, here.1))
        | inr (more, _, _, _, found, all) ↦
            let ih = walk_files-length w.count w.seen w.total files more here.1 found in
            rw (sym all) (omega (arith, here.0, ih, length-append w.records more))
      ]

-- A batch has no more than `limit` records.
pub batch-length :
    (codec : Codec) (limit max_bytes : ℕ) (s : Spool) (rs : List SpoolRecord)
    → batch codec limit max_bytes s ≡ some rs
    → length rs ≤ limit
unfolding batch
batch-length codec limit max_bytes s rs read =
    let total =
      walk_files-length codec limit max_bytes s.state.offsets 0 [] 0 s.files rs (omega arith)
        read in
    omega (arith, total)
