-- ===== src/Collector/Recovery/Resuming.antt =====
-- A collector that has recovered appends again (internal/collector/spool.go).
use on_watch.Base.{◌+◌, ◌≤◌, ◌≡◌, none, List, [], String, length, string_eq}
use on_watch.Ingest.{Event}
use on_watch.Collector.Lines.{Bytes}
use on_watch.Collector.Spool.{Codec, Spool, disk_bytes, append, line_of}
use on_watch.Collector.Spool.Removal.{IsSpool}
use on_watch.Collector.Recovery.{recover_partial_tails}
use on_watch.Collector.Recovery.Cleaning.{recover_partial_tails-Cleans}
use on_watch.Collector.Spool.Clean.{append-none}

-- In a spool whose file names differ and whose cursors on disk agree with those in memory: after a
-- recovery that returned no error, `Append` returns no error if no write fails and there is space,
-- whatever records a crash had left incomplete.
pub recover_partial_tails-append :
    (codec : Codec) (backups : List Bytes) (prefix new_name : String) (event : Event) (s : Spool)
    → IsSpool s
    → (recover_partial_tails backups s).0 ≡ none
    → let t = (recover_partial_tails backups s).1.spool in
      t.faults ≡ []
      → disk_bytes t.files + length (line_of codec event) ≤ t.max_bytes
      → (append codec prefix new_name none event t).0 ≡ none
recover_partial_tails-append codec backups prefix new_name event s ok fine works space =
    let c = recover_partial_tails-Cleans codec backups s ok in
    let t = (recover_partial_tails backups s).1.spool in
    append-none codec prefix new_name event t c.keeps.sound works (c.clean fine) space
