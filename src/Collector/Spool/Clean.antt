-- ===== src/Collector/Spool/Clean.antt =====
-- `Append` returns no error where no write fails, every file is empty or ends with a newline, and
-- there is space (internal/collector/spool.go).
use on_watch.Base.{
  ◌+◌, ◌≤◌, ◌≡◌, refl, sym, ap, ◌∙◌, Bool, true, false, Option, none, some, [], ◌∷◌, String, arith,
  length, ltb, Dict, lookup, lookup-erase, string_eq, Option-cases, inl, inr,
}
use on_watch.Ingest.{Event}
use on_watch.Collector.Lines.{Bytes, ends_clean}
use on_watch.Collector.Spool.{
  Codec, Spool, SpoolError, forget, remove_acked_loop, remove_acked, file_of_day, disk_bytes,
  append_line, append_removed, append, line_of, next_fails,
}
use on_watch.Collector.Spool.Files.{file_of_day-lookup}
use on_watch.Collector.Spool.Removal.{IsSpool, remove_acked_loop_step, remove_acked-Keeps}
use on_watch.Collector.Spool.Unread.{
  remove_acked_loop-nil, save_if_changed-files, remove_acked-disk_bytes,
}
use on_watch.Collector.Spool.Success.{Works, remove_acked-Works}

-- The removal keeps files as they were.
forget-lookup :
    (name : String) (s : Spool) (j : String) (c : Bytes)
    → lookup j (forget name s).files ≡ some c
    → lookup j s.files ≡ some c
forget-lookup name s j c h = ground (arith, lookup-erase name j s.files)

remove_acked_loop-lookup :
    (rest : Dict String Bytes) (changed : Bool) (s : Spool) (j : String) (c : Bytes)
    → lookup j (remove_acked_loop rest changed s).2.files ≡ some c
    → lookup j s.files ≡ some c
remove_acked_loop-lookup [] changed s j c h = rw (remove_acked_loop-nil changed s) at h
remove_acked_loop-lookup ((name, content) ∷ rest) changed s j c h =
    elim (remove_acked_loop_step name content rest changed s) [
      | inl (e, _) ↦ remove_acked_loop-lookup rest changed s j c (rw e at h)
      | inr (inl (e, _)) ↦ rw e at h
      | inr (inr (e, _)) ↦
          forget-lookup name s j c
            (remove_acked_loop-lookup rest true (forget name s) j c (rw e at h))
    ]

abbrev pub AllClean : Dict String Bytes → Type 0
AllClean files = (name : String) (c : Bytes) → lookup name files ≡ some c → ends_clean c ≡ true

remove_acked-AllClean : (s : Spool) → AllClean s.files → AllClean (remove_acked s).1.files
unfolding remove_acked
remove_acked-AllClean s clean name c h =
    let (error, changed, t) = remove_acked_loop s.files false s in
    clean name c (
      remove_acked_loop-lookup s.files false s name c
        (sym (ap (lookup name) (save_if_changed-files error changed t).0) ∙ h))

append_line-none :
    (prefix new_name : String) (line : Bytes) (s : Spool)
    → IsSpool s
    → s.faults ≡ []
    → AllClean s.files
    → disk_bytes s.files + length line ≤ s.max_bytes
    → (append_line prefix new_name line none s).0 ≡ none
unfolding append_line
append_line-none prefix new_name line s ok works clean space =
    let fits : ltb s.max_bytes (disk_bytes s.files + length line) ≡ false = ground arith in
    elim (Option-cases (file_of_day prefix s.files)) [
      | inl none_yet ↦
          let creates : next_fails s.faults ≡ false = rw works refl in
          rw (fits, none_yet, creates) refl
      | inr ((name, content), found) ↦
          rw
            (
              fits,
              found,
              clean name content (file_of_day-lookup prefix name content s.files ok.unique found),
            )
            refl
    ]

append_removed-none :
    (prefix new_name : String) (line : Bytes) (error : Option SpoolError) (s : Spool)
    → Works error s
    → IsSpool s
    → AllClean s.files
    → disk_bytes s.files + length line ≤ s.max_bytes
    → (append_removed prefix new_name line none (error, s)).0 ≡ none
unfolding append_removed
append_removed-none prefix new_name line (some e) s works ok clean space = absurd (cc (works.0))
append_removed-none prefix new_name line none s works ok clean space =
    append_line-none prefix new_name line s ok works.1 clean space

pub append-none :
    (codec : Codec) (prefix new_name : String) (event : Event) (s : Spool)
    → IsSpool s
    → s.faults ≡ []
    → AllClean s.files
    → disk_bytes s.files + length (line_of codec event) ≤ s.max_bytes
    → (append codec prefix new_name none event s).0 ≡ none
unfolding append
append-none codec prefix new_name event s ok works clean space =
    let (error, t) = remove_acked s in
    let smaller = remove_acked-disk_bytes s in
    let kept = remove_acked-Keeps codec s ok in
    append_removed-none prefix new_name (line_of codec event) error t (remove_acked-Works s works)
      kept.sound (remove_acked-AllClean s clean) (omega (arith, smaller.0, smaller.1, space))
