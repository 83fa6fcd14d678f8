-- ===== src/Collector/Spool.antt =====
-- `Spool` of internal/collector/spool.go: events on disk until the server has them. A spool is its
-- directory of event files, by name and in the order of `eventFiles`, the file `state.json`, and
-- the cursors in memory. Listing the directory, `Stat` and reading succeed; what writes may fail.
-- `json` is outside the repository: it is the parameter `Codec`.
pub mod Cursors
pub mod Reading
pub mod Batches
pub mod Removal
pub mod Delivery
pub mod Files
pub mod Unread
pub mod Writing
pub mod Appending
pub mod Bounds
pub mod Progress
pub mod Distinct
pub mod Success
pub mod Clean
use Prim.Native.String.{compare}
use text.Mathlib.Text.{◌==◌ as str_eq, is_lt, starts_with}
use on_watch.Base.{
  ℕ, ◌+◌, ◌-◌, Bool, true, false, not, ◌&&◌, ◌||◌, Option, none, some, List, [], ◌∷◌, ◌++◌, String,
  ltb, leb, ◌==◌, if◌then◌else◌, length, Dict, lookup, insert, erase, string_eq,
}
use on_watch.Ingest.{Event, has_seen}
use on_watch.Collector.Lines.{Bytes, newline, seek, complete_lines, ends_clean}

pub record Codec : Type 0 where
  pub marshal : Event → Bytes
  -- `json.Unmarshal` of a line.
  pub unmarshal : Bytes → Option Event

pub record CursorState : Type 0 where
  pub offsets : Dict String ℕ
  pub last_upload_at : Option ℕ
  pub last_error : String

pub record SpoolRecord : Type 0 where
  pub event : Event
  pub file : String
  pub end_offset : ℕ

-- `saved` is `state.json`. `faults` are the writes that are still to come: `true` is one that
-- fails. With none left all succeed.
pub record Spool : Type 0 where
  pub files : Dict String Bytes
  pub saved : CursorState
  pub state : CursorState
  pub max_bytes : ℕ
  pub faults : List Bool

-- The errors that the methods return; nil is `none`.
pub data SpoolError : Type 0 where
  remove_failed save_failed full create_failed incomplete write_failed invalid : SpoolError

abbrev pub next_fails : List Bool → Bool
next_fails [] = false
next_fails (b ∷ bs) = b

abbrev pub other_faults : List Bool → List Bool
other_faults [] = []
other_faults (b ∷ bs) = bs

-- A Go map read yields 0 for a missing key.
abbrev pub offset_of : String → Dict String ℕ → ℕ
offset_of name offsets = elim (lookup name offsets) [ none ↦ 0 | some n ↦ n ]

-- A process that starts reads the cursors from disk.
unfoldable pub restart : Spool → Spool
restart s = record s { state = s.saved }

abbrev pub used : Spool → Spool
used s = record s { faults = other_faults s.faults }

unfoldable pub save_state : Spool → Option SpoolError × Spool
save_state s =
    if next_fails s.faults
    then (some save_failed, used s)
    else (none, record (used s) { saved = s.state })

-- The removal of one file, with its cursor in memory.
abbrev pub forget : String → Spool → Spool
forget name s = record (used s) {
  files = erase name s.files;
  state = record s.state { offsets = erase name s.state.offsets };
}

-- The loop over the files that were listed; the Boolean is `changed`.
pub remove_acked_loop : Dict String Bytes → Bool → Spool → Option SpoolError × Bool × Spool
remove_acked_loop [] changed s = (none, changed, s)
remove_acked_loop ((name, content) ∷ rest) changed s =
    let kept = remove_acked_loop rest changed s in
    let removed = remove_acked_loop rest true (forget name s) in
    if not (leb (length content) (offset_of name s.state.offsets))
    then kept
    else if next_fails s.faults
    then (some remove_failed, changed, used s)
    else removed

-- After the loop: `if changed { return s.saveStateLocked() }`.
pub save_if_changed : Option SpoolError × Bool × Spool → Option SpoolError × Spool
unfolding save_state
save_if_changed (some e, changed, s) = (some e, s)
save_if_changed (none, true, s) = save_state s
save_if_changed (none, false, s) = (none, s)

unfoldable pub remove_acked : Spool → Option SpoolError × Spool
unfolding remove_acked_loop save_if_changed
remove_acked s = save_if_changed (remove_acked_loop s.files false s)

abbrev pub disk_bytes : Dict String Bytes → ℕ
disk_bytes [] = 0
disk_bytes ((_, content) ∷ rest) = length content + disk_bytes rest

-- The last file of the day: `prefix` is "events-" and its date.
abbrev pub file_of_day : String → Dict String Bytes → Option (String × Bytes)
file_of_day prefix [] = none
file_of_day prefix ((name, content) ∷ rest) = elim (file_of_day prefix rest) [
  | some later ↦ some later
  | none ↦ if starts_with name prefix then some (name, content) else none
]

-- A new file, at its place in the order of `sort.Strings`.
abbrev pub insert_sorted : String → Bytes → Dict String Bytes → Dict String Bytes
insert_sorted name content [] = (name, content) ∷ []
insert_sorted name content ((other, bytes) ∷ rest) =
    if is_lt (compare other name)
    then (other, bytes) ∷ insert_sorted name content rest
    else (name, content) ∷ (other, bytes) ∷ rest

-- So many bytes of a write that fails reach the disk.
abbrev pub first_bytes : ℕ → Bytes → Bytes
first_bytes n [] = []
first_bytes n (b ∷ bs) = let rest = first_bytes (n - 1) bs in if n == 0 then [] else b ∷ rest

-- The write at the end of a file. `torn` is how many bytes are written where it or `Sync` fails.
abbrev pub write_line : String → Bytes → Bytes → Option ℕ → Spool → Option SpoolError × Spool
write_line name content line none s =
    (none, record s { files = insert name (content ++ line) s.files })
write_line name content line (some n) s =
    (some write_failed, record s { files = insert name (content ++ first_bytes n line) s.files })

-- `Append` after the removal; `new_name` is the name that `CreateTemp` finds. A `Close` that fails
-- after the creation leaves an empty file, as a write that stops at once does (`torn` is 0).
pub append_line : String → String → Bytes → Option ℕ → Spool → Option SpoolError × Spool
append_line prefix new_name line torn s =
    if ltb s.max_bytes (disk_bytes s.files + length line)
    then (some full, s)
    else elim (file_of_day prefix s.files) [
      | some (name, content) ↦
          if ends_clean content then write_line name content line torn s else (some incomplete, s)
      | none ↦
          if next_fails s.faults
          then (some create_failed, used s)
          else write_line new_name [] line torn
              (record (used s) { files = insert_sorted new_name [] s.files })
    ]

-- `Append` goes on after a removal that returns no error.
pub append_removed :
    String → String → Bytes → Option ℕ → Option SpoolError × Spool → Option SpoolError × Spool
append_removed prefix new_name line torn (some e, s) = (some e, s)
append_removed prefix new_name line torn (none, s) = append_line prefix new_name line torn s

module _ (codec : Codec) where
  abbrev pub line_of : Event → Bytes
  line_of event = codec.marshal event ++ newline ∷ []

  unfoldable pub append : String → String → Option ℕ → Event → Spool → Option SpoolError × Spool
  unfolding append_line append_removed remove_acked
  append prefix new_name torn event s =
      append_removed prefix new_name (line_of event) torn (remove_acked s)

-- How the reading of a file ended: by its end or `limit`; by a record that has to wait for the
-- next batch; by an invalid record.
pub data WalkEnd : Type 0 where
  at_end stopped bad : WalkEnd

pub record Walk : Type 0 where
  pub records : List SpoolRecord
  pub ended : WalkEnd
  pub count : ℕ
  pub seen : List String
  pub total : ℕ

abbrev pub add_record : SpoolRecord → Walk → Walk
add_record r w = record w { records = r ∷ w.records }

abbrev pub halted : WalkEnd → ℕ → List String → ℕ → Walk
halted ended count seen total = record {
  records = [];
  ended = ended;
  count = count;
  seen = seen;
  total = total;
}

module _ (codec : Codec) (limit max_bytes : ℕ) where
  -- The loop over the lines of a file from a position on; `count` is the number of records so far.
  pub walk_lines : String → ℕ → ℕ → List String → ℕ → List Bytes → Walk
  walk_lines name position count seen total [] = halted at_end count seen total
  walk_lines name position count seen total (line ∷ lines) =
      let next = position + length line in
      let rest = λ (event : Event).
        walk_lines name next (count + 1) (event.event_id ∷ seen) (total + length line) lines in
      if leb limit count
      then halted at_end count seen total
      else if ltb max_bytes (total + length line) && ltb 0 count
      then halted stopped count seen total
      else elim (codec.unmarshal line) [
        | none ↦ halted bad count seen total
        | some event ↦
            if has_seen event.event_id seen
            then halted stopped count seen total
            else add_record (record { event = event; file = name; end_offset = next }) (rest event)
      ]

  -- The loop over the files. `none` is the error.
  pub walk_files :
      Dict String ℕ → ℕ → List String → ℕ → Dict String Bytes → Option (List SpoolRecord)
  unfolding walk_lines
  walk_files offsets count seen total [] = some []
  walk_files offsets count seen total ((name, content) ∷ files) =
      let start = offset_of name offsets in
      let w = walk_lines name start count seen total (complete_lines (seek start content)) in
      let rest = walk_files offsets w.count w.seen w.total files in
      elim w.ended [
        | bad ↦ none
        | stopped ↦ some w.records
        | at_end ↦
            if leb limit w.count || leb max_bytes w.total
            then some w.records
            else elim rest [ none ↦ none | some more ↦ some (w.records ++ more) ]
      ]

unfoldable pub batch : Codec → ℕ → ℕ → Spool → Option (List SpoolRecord)
unfolding walk_files walk_lines
batch codec limit max_bytes s = walk_files codec limit max_bytes s.state.offsets 0 [] 0 s.files

unfoldable pub ack_offsets : List SpoolRecord → Dict String ℕ → Dict String ℕ
ack_offsets [] offsets = offsets
ack_offsets (r ∷ rs) offsets = ack_offsets rs (
    if ltb (offset_of r.file offsets) r.end_offset
    then insert r.file r.end_offset offsets
    else offsets)

-- On a failure to save, the cursors are those of before.
pub after_save : CursorState → Option SpoolError × Spool → Option SpoolError × Spool
after_save previous (some e, s) = (some e, record s { state = previous })
after_save previous (none, s) = remove_acked s

abbrev pub acked : List SpoolRecord → ℕ → Spool → Spool
acked records last_upload s = record s {
  state = record {
    offsets = ack_offsets records s.state.offsets;
    last_upload_at = some last_upload;
    last_error = "";
  };
}

unfoldable pub ack : List SpoolRecord → ℕ → Spool → Option SpoolError × Spool
unfolding ack_offsets save_state remove_acked after_save
ack records last_upload s = after_save s.state (save_state (acked records last_upload s))

unfoldable pub set_error : String → Spool → Option SpoolError × Spool
unfolding save_state
set_error message s = save_state (record s { state = record s.state { last_error = message } })
