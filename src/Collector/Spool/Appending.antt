-- ===== src/Collector/Spool/Appending.antt =====
-- `Append` adds its event to the queue, or returns an error; the directory keeps its bound
-- (internal/collector/spool.go).
use on_watch.Base.{
  ℕ, ◌+◌, ◌≡◌, refl, Option, none, some, [], String, arith, length, string_eq, Bool-cases,
  Option-cases, inl, inr, beq_refl, ltb,
}
use on_watch.Ingest.{Event}
use on_watch.Collector.Lines.{ends_clean}
use on_watch.Collector.Spool.{
  Codec, Spool, SpoolError, full, create_failed, incomplete, file_of_day, insert_sorted, disk_bytes,
  append_line, append_removed, append, line_of, remove_acked, next_fails, used,
}
use on_watch.Collector.Spool.Files.{lookup-insert_sorted, file_of_day-lookup}
use on_watch.Collector.Spool.Removal.{IsSpool, Keeps, remove_acked-Keeps}
use on_watch.Collector.Spool.Writing.{
  Encodes, IsFresh, Appends, write_line-Appends, refused, new_file, Keeps-Appends, Keeps-refl,
}
use on_watch.Collector.Spool.Unread.{Unread, remove_acked-Unread}

module _ (codec : Codec) (event read : Event) (code : Encodes codec event read) where
  append_line-Appends :
      (prefix new_name : String) (torn : Option ℕ) (s : Spool)
      → IsSpool s
      → Unread s
      → IsFresh new_name s
      → Appends codec read s (append_line prefix new_name (line_of codec event) torn s)
  unfolding append_line ends_clean
  append_line-Appends prefix new_name torn s ok unread fresh =
      let line = line_of codec event in
      elim (Bool-cases (ltb s.max_bytes (disk_bytes s.files + length line))) [
        | inl over ↦
            rw over (refused codec event read code full s s (Keeps-refl codec event read code s ok))
        | inr fits ↦ elim (Option-cases (file_of_day prefix s.files)) [
          | inl none_yet ↦ elim (Bool-cases (next_fails s.faults)) [
            | inl fails ↦
                rw (fits, none_yet, fails)
                  (refused codec event read code create_failed s (used s) (record {
                    queued = refl;
                    sound = record { unique = ok.unique; persisted = ok.persisted };
                  }))
            | inr works ↦
                let t : Spool = record (used s) { files = insert_sorted new_name [] s.files } in
                let created = new_file codec event read code new_name s ok fresh in
                rw (fits, none_yet, works)
                  (Keeps-Appends codec event read code s t _ created (
                    write_line-Appends codec event read code new_name [] t created.sound
                      (rw
                        (
                          lookup-insert_sorted new_name new_name [] s.files fresh.absent,
                          beq_refl new_name,
                        )
                        refl)
                      (omega (arith, fresh.unread)) refl torn))
          ]
          | inr ((name, content), found) ↦
              let there = file_of_day-lookup prefix name content s.files ok.unique found in
              elim (Bool-cases (ends_clean content)) [
                | inl clean ↦
                    rw (fits, found, clean)
                      (write_line-Appends codec event read code name content s ok there
                        (omega (arith, unread name content there)) clean torn)
                | inr dirty ↦
                    rw (fits, found, dirty)
                      (refused codec event read code incomplete s s
                        (Keeps-refl codec event read code s ok))
              ]
        ]
      ]

  append_removed-Appends :
      (prefix new_name : String) (torn : Option ℕ) (s t : Spool) (error : Option SpoolError)
      → Keeps codec s t
      → (error ≡ none → Unread t)
      → IsFresh new_name t
      → Appends codec read s (append_removed prefix new_name (line_of codec event) torn (error, t))
  unfolding append_removed
  append_removed-Appends prefix new_name torn s t (some e) h unread fresh =
      refused codec event read code e s t h
  append_removed-Appends prefix new_name torn s t none h unread fresh =
      Keeps-Appends codec event read code s t _ h
        (append_line-Appends prefix new_name torn t h.sound (unread refl) fresh)

  -- In a spool whose file names differ and whose cursors on disk agree with those in memory,
  -- `Append` adds the event to the queue and leaves the rest of it, or returns an error and leaves
  -- all of it, whichever write fails or is torn; the names go on differing and the cursors
  -- agreeing. The JSON of the event has no newline and is read back, and the name of a new file is
  -- that of no file and of no cursor.
  pub append-Appends :
      (prefix new_name : String) (torn : Option ℕ) (s : Spool)
      → IsSpool s
      → IsFresh new_name (remove_acked s).1
      → Appends codec read s (append codec prefix new_name torn event s)
  unfolding append
  append-Appends prefix new_name torn s ok fresh =
      let (error, t) = remove_acked s in
      append_removed-Appends prefix new_name torn s t error (remove_acked-Keeps codec s ok)
        (remove_acked-Unread s) fresh
