-- ===== src/Tests/Recovering.antt =====
-- A spool that a crash has left with half a record, and the validation of an event.
use on_watch.Base.{ℕ, ◌+◌, ◌≤◌, ◌≡◌, refl, true, false, none, some, [], ◌∷◌, arith, length, All}
use on_watch.Ingest.Validation.{
  Json, null, object, no_fields, field, Payloads, is_forbidden, validate, walk, walk_fields,
}
use on_watch.Ingest.Validation.Keys.{keys, validate-keys}
use on_watch.Collector.Lines.{seek, ends_clean}
use on_watch.Collector.Spool.{Spool, append, disk_bytes, line_of}
use on_watch.Collector.Spool.Removal.{IsSpool}
use on_watch.Collector.Recovery.{recover_partial_tails}
use on_watch.Collector.Recovery.Cleaning.{Cleans, recover_partial_tails-Cleans}
use on_watch.Collector.Recovery.Resuming.{recover_partial_tails-append}
use on_watch.Tests.Collecting.{event_b, letters, day_one, no_cursors}

-- The second record has lost its newline.
abbrev torn_spool : Spool
torn_spool = record {
  files = (day_one, 97 ∷ 10 ∷ 98 ∷ []) ∷ [];
  saved = no_cursors;
  state = no_cursors;
  max_bytes = 100;
  faults = [];
}

torn_spool-IsSpool : IsSpool torn_spool
torn_spool-IsSpool = record { unique = (refl, tt); persisted = (refl, tt) }

recovered_files : (recover_partial_tails [] torn_spool).1.spool.files ≡ (day_one, 97 ∷ 10 ∷ []) ∷ []
unfolding recover_partial_tails seek ends_clean
recovered_files = refl

recovered_backups : (recover_partial_tails [] torn_spool).1.backups ≡ (98 ∷ []) ∷ []
unfolding recover_partial_tails seek ends_clean
recovered_backups = refl

recover_partial_tails-Cleans_example :
    Cleans letters torn_spool (recover_partial_tails [] torn_spool)
recover_partial_tails-Cleans_example =
    recover_partial_tails-Cleans letters [] torn_spool torn_spool-IsSpool

recover-none : (recover_partial_tails [] torn_spool).0 ≡ none
unfolding recover_partial_tails seek ends_clean
recover-none = refl

recover-faults : (recover_partial_tails [] torn_spool).1.spool.faults ≡ []
unfolding recover_partial_tails seek ends_clean
recover-faults = refl

recover-space :
    disk_bytes (recover_partial_tails [] torn_spool).1.spool.files
      + length (line_of letters event_b)
    ≤ (recover_partial_tails [] torn_spool).1.spool.max_bytes
unfolding recover_partial_tails seek ends_clean
recover-space = omega arith

recover_partial_tails-append_example :
    (append letters "events-2026-01-01" "events-2026-01-01-8.jsonl" none event_b
      (recover_partial_tails [] torn_spool).1.spool).0
    ≡ none
recover_partial_tails-append_example =
    recover_partial_tails-append letters [] "events-2026-01-01" "events-2026-01-01-8.jsonl" event_b
      torn_spool torn_spool-IsSpool recover-none recover-faults recover-space

abbrev usage_payload : Json
usage_payload =
    object (field "model" null (field "usage" (object (field "cost" null no_fields)) no_fields))

abbrev decoders : Payloads ℕ
decoders = record {
  trim = λ s. s;
  lower = λ s. s;
  marshal_size = λ e. some 200;
  parse = λ s. some usage_payload;
  snapshot = λ s. none;
  is_finite = λ x. true;
}

event_b-valid : validate decoders 5 event_b ≡ none
unfolding validate walk walk_fields
event_b-valid = refl

validate-keys_example : All (λ key. is_forbidden decoders key ≡ false) (keys usage_payload)
validate-keys_example = validate-keys decoders 5 event_b usage_payload event_b-valid refl
