-- ===== src/Tracker/Synthetic/Totals.antt =====
-- The values that `processQuota` of internal/tracker/tracker.go leaves in the open cycle, and its
-- calls of `onReset`.
use on_watch.Base.{
  ℕ, ◌≡◌, ◌⊎◌, inl, inr, refl, ◌&&◌, Bool-cases, if_holds, Bool, true, false, Option, none, some,
  List, [], ◌∷◌, ◌++◌, String, string_eq, if◌then◌else◌, arith,
}
use on_watch.Float.{Float64, IsIeee}
use on_watch.Cycle.{
  CycleStore, query_active_cycle, create_cycle, close_cycle, update_cycle, new_row,
}
use on_watch.Cycle.Laws.{query-rows}
use on_watch.Cycle.Active.{
  active, query-active, update_cycle-active, close_cycle-active, create_cycle-active,
}
use on_watch.Tracker.Action.{
  Result, ok, ◌>>◌, modify, and_then-holds, or_fail-ok, CycleError, create_failed,
  initial_peak_failed, close_failed, new_cycle_failed, query_failed, update_failed,
}
use on_watch.Tracker.Synthetic.{
  ResetCycle, QuotaInfo, Slot, last_sub, last_search, last_tool, Tracker, call, last_requests,
  set_last_requests, call_on_reset, cycle_end_time, final_total, add_positive, raise_peak,
  first_snapshot, renew, same_cycle, dispatch, process_quota, is_reset_detected,
}

module _ {F : Type 0} ⦃fl : Float64 F⦄ where
  -- After a call that succeeds, the open cycle satisfies a predicate, and so do the callbacks.
  Ends : (ResetCycle F → Type 0) → String → List String → Result (Unit {0}) × Tracker F → Type 0
  Ends P quota resets r =
      r.0 ≡ ok tt
      → (c : ResetCycle F) × (active quota r.1.store ≡ some c) × P c × (r.1.resets ≡ resets)

  pub set_last-fields :
      (slot : Slot) (v : F) (t : Tracker F)
      → ((set_last_requests slot v t).store ≡ t.store)
        × ((set_last_requests slot v t).resets ≡ t.resets)
        × ((set_last_requests slot v t).has_on_reset ≡ t.has_on_reset)
  set_last-fields last_sub v t = (refl, refl, refl)
  set_last-fields last_search v t = (refl, refl, refl)
  set_last-fields last_tool v t = (refl, refl, refl)

  update-Ends :
      (P : ResetCycle F → Type 0) (e : CycleError) (quota : String) (peak delta : F)
      (c : ResetCycle F) (resets : List String) (finish : Tracker F → Tracker F) (t : Tracker F)
      → ((u : Tracker F) → (finish u).store ≡ u.store)
      → ((s : CycleStore F String ℕ) → (finish (record t { store = s })).resets ≡ resets)
      → active quota t.store ≡ some c
      → P (record c { peak = peak; total_delta = delta })
      → Ends P quota resets ((call e (update_cycle quota peak delta) >> modify finish) t)
  unfolding Ends
  update-Ends P e quota peak delta c resets finish t same called found holds =
      and_then-holds (Ends P quota resets) (λ _. modify finish)
        (call e (update_cycle quota peak delta) t)
        (λ _ done _. (
          record c { peak = peak; total_delta = delta },
          rw (same (call e (update_cycle quota peak delta) t).1)
              (update_cycle-active quota peak delta t.store c found (or_fail-ok e _ tt done)),
          holds,
          called (update_cycle quota peak delta t.store).1,
        ))
        (λ _ _ h. absurd (cc))

  -- The cycle that begins with this snapshot.
  abbrev pub IsFresh : ℕ → QuotaInfo F → ResetCycle F → Type 0
  IsFresh at info c =
      (c.cycle_start ≡ at)
      × (c.resets_at ≡ info.renews_at)
      × (c.peak ≡ info.requests)
      × (c.total_delta ≡ fl.zero)

  -- The cycle that goes on: its times stay, its peak is the old one or the value of this snapshot
  -- and below neither, and its total does not fall.
  abbrev pub IsContinued : QuotaInfo F → ResetCycle F → ResetCycle F → Type 0
  IsContinued info old c =
      (c.cycle_start ≡ old.cycle_start)
      × (c.resets_at ≡ old.resets_at)
      × ((c.peak ≡ old.peak) ⊎ (c.peak ≡ info.requests))
      × (fl.lt c.peak info.requests ≡ false)
      × (fl.lt c.peak old.peak ≡ false)
      × (fl.lt c.total_delta old.total_delta ≡ false)

  abbrev pub NextOf : Bool → ℕ → QuotaInfo F → ResetCycle F → ResetCycle F → Type 0
  NextOf true at info old c = IsFresh at info c
  NextOf false at info old c = IsContinued info old c

  abbrev pub Next : ℕ → QuotaInfo F → Option (ResetCycle F) → ResetCycle F → Type 0
  Next at info none c = IsFresh at info c
  Next at info (some old) c =
      NextOf (is_reset_detected at old.resets_at info.renews_at) at info old c

  -- The calls of `onReset` so far: one more after a reset, where a callback is set.
  abbrev pub resets_after :
      String → ℕ → QuotaInfo F → Option (ResetCycle F) → Bool → List String → List String
  resets_after quota at info none has_on_reset resets = resets
  resets_after quota at info (some old) has_on_reset resets =
      if is_reset_detected at old.resets_at info.renews_at && has_on_reset
      then resets ++ quota ∷ []
      else resets

  create-Ends :
      (e : CycleError) (quota : String) (at : ℕ) (info : QuotaInfo F) (resets : List String)
      (finish : Tracker F → Tracker F) (t : Tracker F)
      → ((u : Tracker F) → (finish u).store ≡ u.store)
      → ((s : CycleStore F String ℕ) → (finish (record t { store = s })).resets ≡ resets)
      → active quota t.store ≡ none
      → Ends (IsFresh at info) quota resets (
          (call e (create_cycle quota at info.renews_at)
              >> (call initial_peak_failed (update_cycle quota info.requests fl.zero)
                  >> modify finish))
            t)
  unfolding Ends
  create-Ends e quota at info resets finish t same called free =
      and_then-holds (Ends (IsFresh at info) quota resets) _
        (call e (create_cycle quota at info.renews_at) t)
        (λ id made.
          update-Ends (IsFresh at info) initial_peak_failed quota info.requests fl.zero
            (new_row fl.zero id quota at info.renews_at) resets finish _ same called
            (create_cycle-active quota at info.renews_at t.store id free (or_fail-ok e _ id made))
            (refl, refl, refl, refl))
        (λ _ _ h. absurd (cc))

  first_snapshot-Ends :
      (quota : String) (at : ℕ) (info : QuotaInfo F) (slot : Slot) (t : Tracker F)
      → active quota t.store ≡ none
      → Ends (IsFresh at info) quota t.resets (first_snapshot quota at info slot t)
  unfolding first_snapshot
  first_snapshot-Ends quota at info slot t =
      create-Ends create_failed quota at info t.resets (set_last_requests slot info.requests) t
        (λ u. (set_last-fields slot info.requests u).0)
        (λ s. (set_last-fields slot info.requests (record t { store = s })).1)

  renew-Ends :
      (quota : String) (at : ℕ) (info : QuotaInfo F) (slot : Slot) (cycle : ResetCycle F)
      (t : Tracker F)
      → Ends
          (IsFresh at info)
          quota
          (if t.has_on_reset then t.resets ++ quota ∷ [] else t.resets)
          (renew quota at info slot cycle t)
  unfolding renew Ends
  renew-Ends quota at info slot cycle t =
      let total = final_total slot info cycle t in
      and_then-holds
        (Ends (IsFresh at info) quota (if t.has_on_reset then t.resets ++ quota ∷ [] else t.resets))
        _
        (call close_failed (close_cycle quota (cycle_end_time at cycle.resets_at) cycle.peak total)
          t)
        (λ _ closed.
          create-Ends new_cycle_failed quota at info _
            (λ u. call_on_reset quota (set_last_requests slot info.requests u)) _
            (λ u. ground (arith, set_last-fields slot info.requests u))
            (λ s. ground (arith, set_last-fields slot info.requests (record t { store = s })))
            (close_cycle-active quota _ cycle.peak total t.store
              (or_fail-ok close_failed _ tt closed)))
        (λ _ _ h. absurd (cc))

  raise_peak_facts :
      (ieee : IsIeee fl) (peak v : F)
      → ((raise_peak peak v ≡ peak) ⊎ (raise_peak peak v ≡ v))
        × (fl.lt (raise_peak peak v) v ≡ false)
        × (fl.lt (raise_peak peak v) peak ≡ false)
  raise_peak_facts ieee peak v =
      ground (arith, ieee.lt_irrefl v, ieee.lt_irrefl peak, ieee.lt_trans peak v peak)

  add_positive_grows :
      (ieee : IsIeee fl) (total a b : F) → fl.lt (add_positive total a b) total ≡ false
  add_positive_grows ieee total a b =
      ground (arith, ieee.lt_irrefl total, ieee.add_grows total (fl.sub a b))

  same_cycle-Ends :
      (ieee : IsIeee fl) (quota : String) (info : QuotaInfo F) (slot : Slot) (old : ResetCycle F)
      (t : Tracker F)
      → active quota t.store ≡ some old
      → Ends (IsContinued info old) quota t.resets (same_cycle quota info slot old t)
  unfolding same_cycle Ends
  same_cycle-Ends ieee quota info slot old t found =
      let finish = set_last_requests slot info.requests in
      let total = add_positive old.total_delta info.requests (last_requests slot t) in
      let saved = λ (delta : F) (grown : fl.lt delta old.total_delta ≡ false).
        update-Ends (IsContinued info old) update_failed quota (raise_peak old.peak info.requests)
          delta old t.resets finish t (λ u. (set_last-fields slot info.requests u).0)
          (λ s. (set_last-fields slot info.requests (record t { store = s })).1) found
          (ground (arith, raise_peak_facts ieee old.peak info.requests)) in
      if_holds (Ends (IsContinued info old) quota t.resets) t.has_last_values _ _
        (λ _.
          saved total
            (add_positive_grows ieee old.total_delta info.requests (last_requests slot t)))
        (λ _.
          if_holds (Ends (IsContinued info old) quota t.resets) (fl.lt old.peak info.requests) _ _
            (λ _. saved old.total_delta (ieee.lt_irrefl old.total_delta))
            (λ lower _. (
              old,
              rw ((set_last-fields slot info.requests t).0) found,
              ground (arith, ieee.lt_irrefl old.total_delta, ieee.lt_irrefl old.peak),
              (set_last-fields slot info.requests t).1,
            )))

  dispatch-Ends :
      (ieee : IsIeee fl) (quota : String) (at : ℕ) (info : QuotaInfo F) (slot : Slot)
      (found : Option (ResetCycle F)) (t : Tracker F)
      → active quota t.store ≡ found
      → Ends
          (Next at info found)
          quota
          (resets_after quota at info found t.has_on_reset t.resets)
          (dispatch quota at info slot found t)
  unfolding is_reset_detected Ends
  dispatch-Ends ieee quota at info slot none t h = first_snapshot-Ends quota at info slot t h
  dispatch-Ends ieee quota at info slot (some old) t h =
      elim (Bool-cases (is_reset_detected at old.resets_at info.renews_at)) [
        | inl reset ↦ rw reset (renew-Ends quota at info slot old t)
        | inr same ↦ rw same (same_cycle-Ends ieee quota info slot old t h)
      ]

  -- A successful `processQuota` leaves its quota an open cycle. Without one before, or after a
  -- detected reset, it is a new cycle from the time of the snapshot with the values of the
  -- snapshot. Else it is the one before: its peak is the greater of the old peak and the value of
  -- the snapshot, and its total has not fallen. `onReset` is called once after a reset and never
  -- else. The values are compared as IEEE 754 says.
  pub process_quota-Next :
      (ieee : IsIeee fl) (quota : String) (at : ℕ) (info : QuotaInfo F) (slot : Slot)
      (t : Tracker F)
      → let r = process_quota quota at info slot t in
        r.0 ≡ ok tt
        → (c : ResetCycle F) × (active quota r.1.store ≡ some c)
          × Next at info (active quota t.store) c
          × (r.1.resets ≡ resets_after quota at info (active quota t.store) t.has_on_reset t.resets)
  unfolding process_quota Ends
  process_quota-Next ieee quota at info slot t =
      and_then-holds
        (Ends (Next at info (active quota t.store)) quota
          (resets_after quota at info (active quota t.store) t.has_on_reset t.resets))
        (dispatch quota at info slot) (call query_failed (query_active_cycle quota) t)
        (λ found answered.
          let was = query-active quota t.store found (or_fail-ok query_failed _ found answered) in
          rw was
            (dispatch-Ends ieee quota at info slot found _ (rw (query-rows quota t.store) was)))
        (λ _ _ h. absurd (cc))
