-- ===== src/Collector/Recovery.antt =====
-- `recoverPartialTails` of internal/collector/spool.go, which runs before the collector starts: what
-- a crash has left after the last newline of a file moves to a file of its own. A truncation that
-- fails leaves the file whole; a `Sync` that fails after it leaves the file truncated.
pub mod Truncation
pub mod Cleaning
pub mod Resuming
use on_watch.Base.{
  ℕ, ◌+◌, ◌-◌, Bool, true, false, ◌&&◌, ◌||◌, not, Option, none, some, List, [], ◌∷◌, String, ◌==◌,
  if◌then◌else◌, length, Dict, insert, string_eq,
}
use on_watch.Ingest.{max_event_bytes}
use on_watch.Collector.Lines.{Bytes, newline, seek, ends_clean}
use on_watch.Collector.Spool.{Spool, first_bytes, next_fails, used}

-- `strings.LastIndexByte(tail, '\n') + 1`.
abbrev pub cut_after_last : Bytes → ℕ
cut_after_last [] = 0
cut_after_last (b ∷ bs) =
    let rest = cut_after_last bs in if rest == 0 then (if b == newline then 1 else 0) else rest + 1

pub data RecoverError : Type 0 where
  oversized backup_failed truncate_failed sync_failed : RecoverError

-- `backups` are the files `partial-*.jsonl`, the last one first.
pub record Recovered : Type 0 where
  pub backups : List Bytes
  pub spool : Spool

-- The backup and the truncation, at `cut` bytes after `start`.
pub cut_file : String → Bytes → ℕ → ℕ → Recovered → Option RecoverError × Recovered
cut_file name content start cut r =
    let saved : Recovered = record {
      backups = seek cut (seek start content) ∷ r.backups;
      spool = used r.spool;
    } in
    let truncated : Recovered = record saved {
      spool = record (used (used saved.spool)) {
        files = insert name (first_bytes (start + cut) content) saved.spool.files;
      };
    } in
    if next_fails r.spool.faults
    then (some backup_failed, record r { spool = used r.spool })
    else if next_fails saved.spool.faults
    then (some truncate_failed, record saved { spool = used saved.spool })
    else if next_fails (used saved.spool).faults
    then (some sync_failed, truncated)
    else (none, truncated)

-- The most of a file's end that is read.
abbrev pub tail_bytes : ℕ
tail_bytes = max_event_bytes + 4096

-- One file. Only so much of its end is read as an event may take.
pub recover_file : String → Bytes → Recovered → Option RecoverError × Recovered
unfolding cut_file
recover_file name content r =
    let start = length content - tail_bytes in
    let tail = seek start content in
    let cut = cut_after_last tail in
    if ends_clean tail
    then (none, r)
    else if cut == 0 && not (start == 0)
    then (some oversized, r)
    else cut_file name content start cut r

-- The loop over the files goes on where a file gives no error.
pub recover_files :
    Dict String Bytes → Option RecoverError × Recovered → Option RecoverError × Recovered
unfolding recover_file
recover_files files (some e, r) = (some e, r)
recover_files [] (none, r) = (none, r)
recover_files ((name, content) ∷ files) (none, r) =
    recover_files files (recover_file name content r)

unfoldable pub recover_partial_tails : List Bytes → Spool → Option RecoverError × Recovered
unfolding recover_files
recover_partial_tails backups s =
    recover_files s.files (none, record { backups = backups; spool = s })
