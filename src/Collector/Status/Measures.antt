-- ===== src/Collector/Status/Measures.antt =====
-- `Status` takes nothing from the queue (internal/collector/spool.go).
use on_watch.Base.{ℕ, ◌≡◌, refl, Option, none, some}
use on_watch.Collector.Spool.{Codec, Spool, SpoolError, remove_acked}
use on_watch.Collector.Spool.Removal.{IsSpool, Keeps, remove_acked-Keeps}
use on_watch.Collector.Status.{status, measure_removed}

measure_removed-same :
    (codec : Codec) (now : ℕ) (error : Option SpoolError) (s : Spool)
    → let r = measure_removed codec now (error, s) in (r.1 ≡ s) × (r.0.0 ≡ error)
unfolding measure_removed
measure_removed-same codec now (some e) s = (refl, refl)
measure_removed-same codec now none s = (refl, refl)

pub status-same :
    (codec : Codec) (now : ℕ) (s : Spool)
    → let r = status codec now s in (r.1 ≡ (remove_acked s).1) × (r.0.0 ≡ (remove_acked s).0)
unfolding status
status-same codec now s = let (error, t) = remove_acked s in measure_removed-same codec now error t

pub status-Keeps :
    (codec : Codec) (now : ℕ) (s : Spool) → IsSpool s → Keeps codec s (status codec now s).1
status-Keeps codec now s ok = rw ((status-same codec now s).0) (remove_acked-Keeps codec s ok)
