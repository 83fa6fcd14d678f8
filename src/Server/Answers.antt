-- ===== src/Server/Answers.antt =====
-- The answer to a batch (internal/ingestserver/server.go): a result for each event, in order.
use on_watch.Base.{
  ℕ, true, ◌≡◌, ◌≢◌, refl, sym, ◌∙◌, ◌⊎◌, inl, inr, none, some, List, [], ◌∷◌, String, lookup,
  insert, lookup-insert_ne, lookup-insert_self, All, Dict, Option-cases, string_eq,
}
use mathlib.Core.Path.{subst}
use on_watch.Ingest.{Event, EventResult}
use on_watch.Ingest.Validation.{Payloads, EventError, validate}
use on_watch.Collector.Upload.{is_settled}
use on_watch.Central.Tables.{Tables}
use on_watch.Central.Payload.{Externals}
use on_watch.Central.Storing.{reject}
use on_watch.Central.Storing.Received.{Received}
use on_watch.Central.Storing.Batches.{Lacks, Distinct, Answered}
use on_watch.Server.{stable_code, by_id, valid_events, first_result, chosen, merge}

abbrev pub In : Event → List Event → Type 0
In e [] = ⊥
In e (other ∷ es) = (other ≡ e) ⊎ In e es

In-Lacks : (e : Event) (id : String) (es : List Event) → In e es → Lacks id es → e.event_id ≢ id
In-Lacks e id [] m h = absurd m
In-Lacks e id (other ∷ es) (inl same) h = rw (← same) h.0
In-Lacks e id (other ∷ es) (inr m) h = In-Lacks e id es m h.1

abbrev Unnamed : String → List EventResult → Type 0
Unnamed id rs = All (λ r. EventResult.event_id r ≢ id) rs

by_id-Unnamed :
    (id : String) (d : Dict String EventResult) (rs : List EventResult)
    → Unnamed id rs
    → lookup id (by_id d rs) ≡ lookup id d
unfolding by_id
by_id-Unnamed id d [] h = refl
by_id-Unnamed id d (r ∷ rs) h =
    by_id-Unnamed id (insert r.event_id r d) rs h.1 ∙ lookup-insert_ne r.event_id id r d h.0

module _ {F : Type 0} (p : Payloads F) (now : ℕ) where
  valid_events_keep :
      (e : Event) (es : List Event)
      → validate p now e ≡ none
      → valid_events p now (e ∷ es) ≡ e ∷ valid_events p now es
  unfolding valid_events
  valid_events_keep e es valid = rw (valid, valid_events) refl

  valid_events_drop :
      (e : Event) (es : List Event) (error : EventError)
      → validate p now e ≡ some error
      → valid_events p now (e ∷ es) ≡ valid_events p now es
  unfolding valid_events
  valid_events_drop e es error invalid = rw (invalid, valid_events) refl

  chosen_invalid :
      (e : Event) (error : EventError)
      → validate p now e ≡ some error
      → chosen p now e none ≡ reject e (stable_code error)
  unfolding chosen first_result
  chosen_invalid e error invalid = rw (invalid, first_result) refl

  valid_events-Lacks :
      (id : String) (es : List Event) → Lacks id es → Lacks id (valid_events p now es)
  unfolding valid_events
  valid_events-Lacks id [] h = tt
  valid_events-Lacks id (e ∷ es) h = elim (Option-cases (validate p now e)) [
    | inl valid ↦ rw (valid_events_keep e es valid) (h.0, valid_events-Lacks id es h.1)
    | inr (error, invalid) ↦
        rw (valid_events_drop e es error invalid) (valid_events-Lacks id es h.1)
  ]

  pub valid_events-Distinct : (es : List Event) → Distinct es → Distinct (valid_events p now es)
  unfolding valid_events
  valid_events-Distinct [] h = tt
  valid_events-Distinct (e ∷ es) h = elim (Option-cases (validate p now e)) [
    | inl valid ↦
        rw (valid_events_keep e es valid)
          (valid_events-Lacks e.event_id es h.0, valid_events-Distinct es h.1)
    | inr (error, invalid) ↦
        rw (valid_events_drop e es error invalid) (valid_events-Distinct es h.1)
  ]

  valid_events-In :
      (e : Event) (es : List Event)
      → validate p now e ≡ none
      → In e es
      → In e (valid_events p now es)
  valid_events-In e [] valid m = absurd m
  valid_events-In e (other ∷ es) valid (inl same) =
      rw (valid_events_keep other es (rw same valid)) (inl same)
  valid_events-In e (other ∷ es) valid (inr m) = elim (Option-cases (validate p now other)) [
    | inl also ↦ rw (valid_events_keep other es also) (inr (valid_events-In e es valid m))
    | inr (error, invalid) ↦
        rw (valid_events_drop other es error invalid) (valid_events-In e es valid m)
  ]

  invalid-Lacks :
      (e : Event) (error : EventError) (es : List Event)
      → validate p now e ≡ some error
      → Distinct es
      → In e es
      → Lacks e.event_id (valid_events p now es)
  invalid-Lacks e error [] invalid new m = absurd m
  invalid-Lacks e error (other ∷ es) invalid new (inl same) =
      rw (valid_events_drop other es error (rw same invalid))
        (valid_events-Lacks e.event_id es (rw (← same) new.0))
  invalid-Lacks e error (other ∷ es) invalid new (inr m) =
      elim (Option-cases (validate p now other)) [
        | inl valid ↦ rw (valid_events_keep other es valid) (
          (λ same. In-Lacks e other.event_id es m new.0 (sym same)),
          invalid-Lacks e error es invalid new.1 m,
        )
        | inr (error', also) ↦
            rw (valid_events_drop other es error' also) (invalid-Lacks e error es invalid new.1 m)
      ]

module _ {F W : Type 0} (x : Externals F W) (d : String) (t : Tables F W) where
  Answered-Unnamed :
      (id : String) (es : List Event) (rs : List EventResult)
      → Answered x d t es rs
      → Lacks id es
      → Unnamed id rs
  Answered-Unnamed id [] [] h k = tt
  Answered-Unnamed id [] (r ∷ rs) h k = absurd h
  Answered-Unnamed id (e ∷ es) [] h k = absurd h
  Answered-Unnamed id (e ∷ es) (r ∷ rs) h k = (rw h.0 k.0, Answered-Unnamed id es rs h.2 k.1)

  -- The result that an identifier leads to is that of the event.
  record Finds (stored : Dict String EventResult) (e : Event) : Type 0 where
    result : EventResult
    found : lookup e.event_id stored ≡ some result
    named : result.event_id ≡ e.event_id
    told : ((is_settled result.status ≡ true) × Received x d e t) ⊎ (result.status ≡ "rejected")

  by_id-Finds :
      (es : List Event) (rs : List EventResult) (stored : Dict String EventResult) (e : Event)
      → Answered x d t es rs
      → Distinct es
      → In e es
      → Finds (by_id stored rs) e
  unfolding by_id
  by_id-Finds [] rs stored e h new m = absurd m
  by_id-Finds (e' ∷ es) [] stored e h new m = absurd h
  by_id-Finds (e' ∷ es) (r ∷ rs) stored e h new (inr m) =
      by_id-Finds es rs (insert r.event_id r stored) e h.2 new.1 m
  by_id-Finds (e' ∷ es) (r ∷ rs) stored e h new (inl same) = rw (← same) (record {
    result = r;
    found =
        by_id-Unnamed e'.event_id (insert r.event_id r stored) rs
          (Answered-Unnamed e'.event_id es rs h.2 new.0)
        ∙ subst (λ id. lookup id (insert r.event_id r stored) ≡ some r) h.0
            (lookup-insert_self r.event_id r stored);
    named = h.0;
    told = h.1;
  })

  -- One entry of the answer.
  Told : Event → EventResult → Type 0
  Told e r =
      (r.event_id ≡ e.event_id)
      × (((is_settled r.status ≡ true) × Received x d e t) ⊎ (r.status ≡ "rejected"))

  module _ (p : Payloads F) (now : ℕ) (all : List Event) (rs : List EventResult)
      (new : Distinct all) (h : Answered x d t (valid_events p now all) rs) where
    chosen-Told : (e : Event) → In e all → Told e (chosen p now e (lookup e.event_id (by_id [] rs)))
    unfolding Told chosen
    chosen-Told e m = elim (Option-cases (validate p now e)) [
      | inl valid ↦
          let got =
            by_id-Finds (valid_events p now all) rs [] e h (valid_events-Distinct p now all new)
              (valid_events-In p now e all valid m) in
          rw got.found (got.named, got.told)
      | inr (error, invalid) ↦
          let lost : lookup e.event_id (by_id [] rs) ≡ none = by_id-Unnamed e.event_id [] rs (
            Answered-Unnamed e.event_id (valid_events p now all) rs h
              (invalid-Lacks p now e error all invalid new m)) in
          rw (lost, chosen_invalid p now e error invalid) (refl, inr refl)
    ]

    pub merge-Answered :
        (es : List Event)
        → ((e : Event) → In e es → In e all)
        → Answered x d t es (merge p now (by_id [] rs) es)
    unfolding merge Told
    merge-Answered [] within = tt
    merge-Answered (e ∷ es) within =
        let told = chosen-Told e (within e (inl refl)) in
        (told.0, told.1, merge-Answered es (λ e' m. within e' (inr m)))
