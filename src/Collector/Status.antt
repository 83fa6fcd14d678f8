-- ===== src/Collector/Status.antt =====
-- `Status` of internal/collector/spool.go: after the removal of files that are read, it measures
-- what is left. `bufio.Scanner` takes lines with and without a newline at the end, and stops at one
-- that its buffer does not hold.
pub mod Measures
use on_watch.Base.{
  ℕ, ◌+◌, ◌-◌, ◌*◌, ◌/◌, Bool, true, false, ◌&&◌, ◌||◌, Option, none, some, List, [], ◌∷◌, String,
  ltb, leb, ◌==◌, if◌then◌else◌, length, Dict, string_eq,
}
use on_watch.Ingest.{Event, max_event_bytes}
use on_watch.Collector.Lines.{Bytes, newline, seek}
use on_watch.Collector.Spool.{Codec, Spool, SpoolError, offset_of, disk_bytes, remove_acked}

pub record SpoolStatus : Type 0 where
  pub queue_bytes : ℕ
  pub disk_bytes : ℕ
  pub pending_events : ℕ
  pub oldest_queued_at : Option ℕ
  pub last_upload_at : Option ℕ
  pub warning : Bool
  pub full : Bool
  pub last_error : String

abbrev pub no_status : SpoolStatus
no_status = record {
  queue_bytes = 0;
  disk_bytes = 0;
  pending_events = 0;
  oldest_queued_at = none;
  last_upload_at = none;
  warning = false;
  full = false;
  last_error = "";
}

abbrev pub push : ℕ → List Bytes → List Bytes
push b [] = (b ∷ []) ∷ []
push b (l ∷ ls) = (b ∷ l) ∷ ls

-- The lines without their newlines; the last one may lack it.
pub scan_lines : Bytes → List Bytes
scan_lines [] = []
scan_lines (b ∷ bs) = let rest = scan_lines bs in if b == newline then [] ∷ rest else push b rest

-- A carriage return at the end is dropped.
abbrev pub drop_return : Bytes → Bytes
drop_return [] = []
drop_return (b ∷ []) = if b == 13 then [] else b ∷ []
drop_return (b ∷ c ∷ bs) = b ∷ drop_return (c ∷ bs)

-- The count and the oldest time so far.
pub record Tally : Type 0 where
  pub pending_events : ℕ
  pub oldest : Option ℕ

abbrev pub older : ℕ → Option ℕ → Option ℕ
older captured none = some captured
older captured (some oldest) = if ltb captured oldest then some captured else some oldest

module _ (codec : Codec) where
  abbrev pub tally_line : Bytes → Tally → Tally
  tally_line line t = elim (codec.unmarshal (drop_return line)) [
    | none ↦ t
    | some event ↦ record {
      pending_events = t.pending_events + 1;
      oldest = older event.captured_at t.oldest;
    }
  ]

  pub tally_lines : List Bytes → Tally → Tally
  tally_lines [] t = t
  tally_lines (line ∷ lines) t =
      let rest = tally_lines lines (tally_line line t) in
      if ltb (length line) (max_event_bytes + 4096) then rest else t

  abbrev pub unread_from : String → Bytes → Dict String ℕ → ℕ
  unread_from name content offsets =
      let offset = offset_of name offsets in if ltb (length content) offset then 0 else offset

  pub tally_files : Dict String ℕ → Dict String Bytes → Tally → Tally
  unfolding tally_lines scan_lines
  tally_files offsets [] t = t
  tally_files offsets ((name, content) ∷ files) t =
      tally_files offsets files
        (tally_lines (scan_lines (seek (unread_from name content offsets) content)) t)

  pub queue_bytes : Dict String ℕ → Dict String Bytes → ℕ
  queue_bytes offsets [] = 0
  queue_bytes offsets ((name, content) ∷ files) =
      length content - unread_from name content offsets + queue_bytes offsets files

  -- A day.
  abbrev pub is_old : ℕ → Option ℕ → Bool
  is_old now none = false
  is_old now (some oldest) = ltb (oldest + 86400000000000) now

  pub measure : ℕ → Spool → SpoolStatus
  unfolding tally_files queue_bytes
  measure now s =
      let tally =
        tally_files s.state.offsets s.files (record { pending_events = 0; oldest = none }) in
      let disk = disk_bytes s.files in
      record {
        queue_bytes = queue_bytes s.state.offsets s.files;
        disk_bytes = disk;
        pending_events = tally.pending_events;
        oldest_queued_at = tally.oldest;
        last_upload_at = s.state.last_upload_at;
        warning = leb (s.max_bytes * 80 / 100) disk || is_old now tally.oldest;
        full = leb s.max_bytes disk;
        last_error = s.state.last_error;
      }

  -- After the removal; an error comes with an empty status.
  pub measure_removed : ℕ → Option SpoolError × Spool → (Option SpoolError × SpoolStatus) × Spool
  unfolding measure
  measure_removed now (some e, s) = ((some e, no_status), s)
  measure_removed now (none, s) = ((none, measure now s), s)

  unfoldable pub status : ℕ → Spool → (Option SpoolError × SpoolStatus) × Spool
  unfolding measure_removed remove_acked
  status now s = measure_removed now (remove_acked s)
