-- ===== src/Tests/Delivering.antt =====
-- A collector and the ingest server at concrete events: the server reads the payload `{ }` as `{}`.
use mathlib.Core.Logic.{ite, if_pos, if_neg}
use mathlib.Core.Option
use text.Mathlib.Text.{◌==◌ as str_eq}
use text.Mathlib.TextEquality.{eq_iff}
use native.Mathlib.Decide.{ℕ_discrete}
use on_watch.Base.{
  ℕ, ◌≡◌, refl, ap, false, Bool-cases, ◌⊎◌, inl, inr, Option, none, some, List, [], ◌∷◌, ◌++◌, map,
  String, string_eq, All, ◌==◌, ◌||◌, if◌then◌else◌,
}
use on_watch.Ingest.{Event, Batch}
use on_watch.Ingest.Validation.{object, no_fields}
use on_watch.Collector.Spool.{SpoolRecord}
use on_watch.Collector.Spool.Cursors.{events}
use on_watch.Collector.Spool.Distinct.{sent}
use on_watch.Collector.Spool.Removal.{pending}
use on_watch.Collector.Upload.{request, upload_once}
use on_watch.Central.Payload.{Externals, canonical_payload}
use on_watch.Server.Delivered.{Same, AllSame, Reads, Kept, exchange, server_reply, upload_once-Kept}
use on_watch.Tests.Collecting.{event_a, event_b, letters, plain_text, collector, two_events-IsSpool}
use on_watch.Tests.Storing.{externals, laptop, server, me, decoders}

-- The empty object is read with and without a space.
abbrev json : Externals ℕ (Unit {0})
json = record externals {
  parse = λ s. if str_eq s "{}" || str_eq s "{ }" then some (object no_fields) else none;
  marshal = λ v. "{}";
}

String-discrete : Discrete String
String-discrete s t = elim (Bool-cases (string_eq.beq s t)) [
  | inl same ↦ yes ((eq_iff s t).0 same)
  | inr other ↦ no (λ same. let e = (eq_iff s t).1 same in cc)
]

Event-discrete : Discrete Event
Event-discrete = hlevel (ℕ_discrete, String-discrete)

-- One number for each of the two events, and 0 for another.
encode_event : Event → ℕ
encode_event e = ite (Event-discrete e event_a) 1 (ite (Event-discrete e event_b) 2 0)

-- What is read has the payload without the space.
abbrev compacted : Event → Event
compacted e = record e { payload = "{}" }

abbrev decode_event : ℕ → Option Event
decode_event n =
    if n == 1 then some (compacted event_a) else if n == 2 then some (compacted event_b) else none

abbrev join : Option Event → Option (List Event) → Option (List Event)
join none es = none
join (some e) none = none
join (some e) (some es) = some (e ∷ es)

abbrev decode_events : List ℕ → Option (List Event)
decode_events [] = some []
decode_events (n ∷ ns) = join (decode_event n) (decode_events ns)

encode : Batch → List ℕ
encode b = (if str_eq b.device_id laptop then 1 else 0) ∷ map encode_event b.events

abbrev batch_of : List Event → Batch
batch_of es = request laptop "1" 0 6 es

abbrev decode : List ℕ → Option Batch
decode [] = none
decode (n ∷ ns) = if n == 1 then Option.map batch_of (decode_events ns) else none

compacted-Same : (e : Event) → e.payload ≡ "{ }" → Same json e (compacted e)
unfolding canonical_payload
compacted-Same e h = record {
  payload = "{}";
  rest = refl;
  parsed = rw h refl;
  canonical = rw h refl;
}

-- An event is one of the two, or has the number 0.
encode_event-cases :
    (e : Event)
    → (decode_event (encode_event e) ≡ none)
      ⊎ ((decode_event (encode_event e) ≡ some (compacted e)) × Same json e (compacted e))
unfolding encode_event
encode_event-cases e = elim (Event-discrete e event_a) [
  | yes a ↦ inr (rw (if_pos _ a, a) refl, compacted-Same e (ap (λ e. Event.payload e) a))
  | no not_a ↦ elim (Event-discrete e event_b) [
    | yes b ↦
        inr
          (rw (if_neg _ not_a, if_pos _ b, b) refl, compacted-Same e (ap (λ e. Event.payload e) b))
    | no not_b ↦ inl (rw (if_neg _ not_a, if_neg _ not_b) refl)
  ]
]

decode_events-AllSame :
    (es : List Event)
    → (decode_events (map encode_event es) ≡ none)
      ⊎ ((es' : List Event) × (decode_events (map encode_event es) ≡ some es')
          × AllSame json es es')
decode_events-AllSame [] = inr ([], refl, tt)
decode_events-AllSame (e ∷ es) = elim (encode_event-cases e) [
  | inl unread ↦ inl (rw unread refl)
  | inr (read, same) ↦ elim (decode_events-AllSame es) [
    | inl unread ↦ inl (rw (read, unread) refl)
    | inr (es', reads, all) ↦ inr (compacted e ∷ es', rw (read, reads) refl, (same, all))
  ]
]

encode-Reads :
    (revision : ℕ) (es : List Event)
    → Reads json decoders (λ s t. string_eq.beq s t) encode decode me 7 6 false server revision es
unfolding encode
encode-Reads revision es = elim (decode_events-AllSame es) [
  | inl unread ↦ inl (rw unread refl)
  | inr (es', reads, all) ↦ inr (batch_of es', rw reads refl, refl, all)
]

upload_once-Kept_example :
    let reply =
      server_reply json decoders (λ s t. string_eq.beq s t) encode decode me 7 6 false server in
    let r' = (upload_once plain_text letters (λ d. d) reply 7 collector).1 in
    (pending letters r'.spool ≡ pending letters collector.spool)
    ⊎ ((rs : List SpoolRecord) × (pending letters collector.spool
          ≡ events rs ++ pending letters r'.spool)
        × All
            (Kept json decoders
              (λ s t. string_eq.beq s t)
              encode
              decode
              me
              7
              6
              false
              server
              (exchange json decoders
                (λ s t. string_eq.beq s t)
                encode
                decode
                me
                7
                6
                false
                server
                (sent rs)
                0).1.database.tables
              r'.quarantined)
            (sent rs))
upload_once-Kept_example =
    upload_once-Kept json decoders (λ s t. string_eq.beq s t) encode decode me 7 6 false server
      letters plain_text (λ d. d) 7 collector two_events-IsSpool
      (λ rs rest queued. encode-Reads 0 (sent rs))
