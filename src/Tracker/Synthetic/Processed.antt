-- ===== src/Tracker/Synthetic/Processed.antt =====
-- A whole snapshot: `Process` of internal/tracker/tracker.go, which handles three quotas in turn.
use on_watch.Base.{
  ℕ, ◌≡◌, ◌≢◌, refl, ◌∙◌, ap, true, false, Option, none, some, String, string_eq, if_holds,
  Bool-cases, inl, inr,
}
use text.Mathlib.TextEquality.{eq_iff}
use on_watch.Float.{Float64, IsIeee}
use on_watch.Cycle.{CycleStore, query_active_cycle, create_cycle, close_cycle, update_cycle}
use on_watch.Cycle.Active.{active}
use on_watch.Cycle.Others.{query-other, update_cycle-other, close_cycle-other, create_cycle-other}
use on_watch.Tracker.Action.{
  Result, ok, err, Action, and_then, modify, CycleError, query_failed, create_failed,
  initial_peak_failed, close_failed, new_cycle_failed, update_failed, ◌>>◌,
}
use on_watch.Tracker.Synthetic.{
  ResetCycle, QuotaInfo, Snapshot, Slot, last_sub, last_search, last_tool, Tracker, call,
  set_last_requests, call_on_reset, first_snapshot, renew, same_cycle, dispatch, process_quota,
  process, is_reset_detected, cycle_end_time, final_total, raise_peak,
}
use on_watch.Tracker.Synthetic.Success.{IsUp, process_quota-Succeeds}
use on_watch.Tracker.Synthetic.Totals.{Next, process_quota-Next, set_last-fields}

differ : (a b : String) → string_eq.beq a b ≡ false → a ≢ b
differ a b h same = let k = (eq_iff a b).1 same in cc

module _ {F : Type 0} ⦃fl : Float64 F⦄ where
  -- The open cycle of a quota is as it was.
  Spares : {A : Type 0} → String → CycleStore F String ℕ → Result A × Tracker F → Type 0
  Spares other s r = active other r.1.store ≡ active other s

  and_then-Spares :
      {A B : Type 0} (other : String) (s : CycleStore F String ℕ) (f : A → Action (Tracker F) B)
      (r : Result A × Tracker F)
      → Spares other s r
      → ((a : A) (t : Tracker F) → active other t.store ≡ active other s → Spares other s (f a t))
      → Spares other s (and_then f r)
  unfolding Spares
  and_then-Spares other s f (ok a, t) h next = next a t h
  and_then-Spares other s f (err e, t) h next = h

  set_last-Spares :
      (other : String) (s : CycleStore F String ℕ) (slot : Slot) (v : F) (t : Tracker F)
      → active other t.store ≡ active other s
      → Spares other s (modify (set_last_requests slot v) t)
  unfolding Spares
  set_last-Spares other s slot v t h = ap (λ s. active other s) (set_last-fields slot v t).0 ∙ h

  call_on_reset-Spares :
      (other : String) (s : CycleStore F String ℕ) (quota : String) (t : Tracker F)
      → active other t.store ≡ active other s
      → Spares other s (modify (call_on_reset quota) t)
  unfolding Spares
  call_on_reset-Spares other s quota t h = elim (Bool-cases t.has_on_reset) [
    | inl set ↦ rw set h
    | inr unset ↦ rw unset h
  ]

  module _ (other quota : String) (differs : other ≢ quota) (s : CycleStore F String ℕ) where
    create-Spares :
        (e : CycleError) (at resets_at : ℕ) (t : Tracker F)
        → active other t.store ≡ active other s
        → Spares other s (call e (create_cycle quota at resets_at) t)
    unfolding Spares
    create-Spares e at resets_at t h =
        create_cycle-other other quota at resets_at t.store differs ∙ h

    update-Spares :
        (e : CycleError) (peak delta : F) (t : Tracker F)
        → active other t.store ≡ active other s
        → Spares other s (call e (update_cycle quota peak delta) t)
    unfolding Spares
    update-Spares e peak delta t h = update_cycle-other other quota peak delta t.store differs ∙ h

    close-Spares :
        (e : CycleError) (end : ℕ) (peak delta : F) (t : Tracker F)
        → active other t.store ≡ active other s
        → Spares other s (call e (close_cycle quota end peak delta) t)
    unfolding Spares
    close-Spares e end peak delta t h =
        close_cycle-other other quota end peak delta t.store differs ∙ h

    -- The write of the first value, and what follows it.
    peak-Spares :
        (info : QuotaInfo F) (next : Action (Tracker F) (Unit {0})) (t : Tracker F)
        → active other t.store ≡ active other s
        → ((u : Tracker F) → active other u.store ≡ active other s → Spares other s (next u))
        → Spares other s
            ((call initial_peak_failed (update_cycle quota info.requests fl.zero) >> next) t)
    peak-Spares info next t h rest =
        and_then-Spares other s (λ _. next)
          (call initial_peak_failed (update_cycle quota info.requests fl.zero) t)
          (update-Spares initial_peak_failed info.requests fl.zero t h) (λ x u k. rest u k)

    first_snapshot-Spares :
        (at : ℕ) (info : QuotaInfo F) (slot : Slot) (t : Tracker F)
        → active other t.store ≡ active other s
        → Spares other s (first_snapshot quota at info slot t)
    unfolding first_snapshot
    first_snapshot-Spares at info slot t h =
        and_then-Spares other s _ (call create_failed (create_cycle quota at info.renews_at) t)
          (create-Spares create_failed at info.renews_at t h)
          (λ id u k. peak-Spares info _ u k (λ v l. set_last-Spares other s slot info.requests v l))

    renew-Spares :
        (at : ℕ) (info : QuotaInfo F) (slot : Slot) (cycle : ResetCycle F) (t : Tracker F)
        → active other t.store ≡ active other s
        → Spares other s (renew quota at info slot cycle t)
    unfolding renew
    renew-Spares at info slot cycle t h =
        let end = cycle_end_time at cycle.resets_at in
        let total = final_total slot info cycle t in
        and_then-Spares other s _ (call close_failed (close_cycle quota end cycle.peak total) t)
          (close-Spares close_failed end cycle.peak total t h)
          (λ x u k.
            and_then-Spares other s _
              (call new_cycle_failed (create_cycle quota at info.renews_at) u)
              (create-Spares new_cycle_failed at info.renews_at u k)
              (λ id v l. peak-Spares info _ v l (λ w m.
                and_then-Spares other s (λ _. modify (call_on_reset quota))
                  (modify (set_last_requests slot info.requests) w)
                  (set_last-Spares other s slot info.requests w m)
                  (λ y z n. call_on_reset-Spares other s quota z n))))

    same_cycle-Spares :
        (info : QuotaInfo F) (slot : Slot) (cycle : ResetCycle F) (t : Tracker F)
        → active other t.store ≡ active other s
        → Spares other s (same_cycle quota info slot cycle t)
    unfolding same_cycle
    same_cycle-Spares info slot cycle t h =
        let peak = raise_peak cycle.peak info.requests in
        let saves : (delta : F)
            → Spares other s (
                (call update_failed (update_cycle quota peak delta)
                    >> modify (set_last_requests slot info.requests))
                  t) =
          λ delta.
            and_then-Spares other s (λ _. modify (set_last_requests slot info.requests))
              (call update_failed (update_cycle quota peak delta) t)
              (update-Spares update_failed peak delta t h)
              (λ x u k. set_last-Spares other s slot info.requests u k) in
        if_holds (Spares other s) t.has_last_values _ _ (λ _. saves _)
          (λ _.
            if_holds (Spares other s) (fl.lt cycle.peak info.requests) _ _ (λ _. saves _)
              (λ _. set_last-Spares other s slot info.requests t h))

    dispatch-Spares :
        (at : ℕ) (info : QuotaInfo F) (slot : Slot) (found : Option (ResetCycle F)) (t : Tracker F)
        → active other t.store ≡ active other s
        → Spares other s (dispatch quota at info slot found t)
    dispatch-Spares at info slot none t h = first_snapshot-Spares at info slot t h
    dispatch-Spares at info slot (some cycle) t h =
        if_holds (λ m. Spares other s (m t)) (is_reset_detected at cycle.resets_at info.renews_at)
          (renew quota at info slot cycle) (same_cycle quota info slot cycle)
          (λ _. renew-Spares at info slot cycle t h) (λ _. same_cycle-Spares info slot cycle t h)

  query-Spares :
      (other quota : String) (t : Tracker F)
      → Spares other t.store (call query_failed (query_active_cycle quota) t)
  unfolding Spares
  query-Spares other quota t = query-other other quota t.store

  process_quota-Spares :
      (other quota : String) (at : ℕ) (info : QuotaInfo F) (slot : Slot) (t : Tracker F)
      → other ≢ quota
      → Spares other t.store (process_quota quota at info slot t)
  unfolding process_quota
  process_quota-Spares other quota at info slot t differs =
      and_then-Spares other t.store _ (call query_failed (query_active_cycle quota) t)
        (query-Spares other quota t)
        (λ found u h. dispatch-Spares other quota differs t.store at info slot found u h)

  -- The quota has an open cycle after the snapshot, that `Next` describes from the one before.
  abbrev pub Follows : String → ℕ → QuotaInfo F → Tracker F → Tracker F → Type 0
  Follows quota at info before after =
      (c : ResetCycle F) × (active quota after.store ≡ some c)
      × Next at info (active quota before.store) c

  and_then_ok :
      (r : Result (Unit {0}) × Tracker F) (next : Action (Tracker F) (Unit {0}))
      → r.0 ≡ ok tt
      → and_then (λ _. next) r ≡ next r.1
  and_then_ok (ok x, t) next h = refl
  and_then_ok (err e, t) next h = absurd (cc)

  -- While no call of the database fails, `Process` of the Synthetic tracker returns no error for any
  -- snapshot, and leaves each of the three quotas an open cycle: a new one from the snapshot's time
  -- with the snapshot's value where there was none before or a reset is detected, and else the one
  -- before, with the greater peak and a total that has not fallen. Values are compared as IEEE 754
  -- says.
  pub process-Follows :
      (ieee : IsIeee fl) (snapshot : Snapshot F) (t : Tracker F)
      → IsUp t
      → let r = process snapshot t in
        let at = snapshot.captured_at in
        (r.0 ≡ ok tt)
        × Follows "subscription" at snapshot.sub t r.1
        × Follows "search" at snapshot.search t r.1
        × Follows "toolcall" at snapshot.tool_call t r.1
  unfolding process Spares
  process-Follows ieee snapshot t up =
      let at = snapshot.captured_at in
      let last : Action (Tracker F) (Unit {0}) =
        modify (λ u. record u { has_last_values = true }) in
      let tool = process_quota "toolcall" at snapshot.tool_call last_tool in
      let search = process_quota "search" at snapshot.search last_search in
      let r1 = process_quota "subscription" at snapshot.sub last_sub t in
      let d1 = process_quota-Succeeds "subscription" at snapshot.sub last_sub t up in
      let n1 = process_quota-Next ieee "subscription" at snapshot.sub last_sub t d1.0 in
      let r2 = search r1.1 in
      let d2 = process_quota-Succeeds "search" at snapshot.search last_search r1.1 d1.1 in
      let n2 = process_quota-Next ieee "search" at snapshot.search last_search r1.1 d2.0 in
      let r3 = tool r2.1 in
      let d3 = process_quota-Succeeds "toolcall" at snapshot.tool_call last_tool r2.1 d2.1 in
      let n3 = process_quota-Next ieee "toolcall" at snapshot.tool_call last_tool r2.1 d3.0 in
      let by_first : (other : String)
          → other ≢ "subscription"
          → active other r1.1.store ≡ active other t.store =
        λ other differs.
          process_quota-Spares other "subscription" at snapshot.sub last_sub t differs in
      let by_second : (other : String)
          → other ≢ "search"
          → active other r2.1.store ≡ active other r1.1.store =
        λ other differs.
          process_quota-Spares other "search" at snapshot.search last_search r1.1 differs in
      let by_third : (other : String)
          → other ≢ "toolcall"
          → active other r3.1.store ≡ active other r2.1.store =
        λ other differs.
          process_quota-Spares other "toolcall" at snapshot.tool_call last_tool r2.1 differs in
      rw
        (
          and_then_ok r1 (search >> (tool >> last)) d1.0,
          and_then_ok r2 (tool >> last) d2.0,
          and_then_ok r3 last d3.0,
        )
        (
          refl,
          (
            n1.0,
            by_third "subscription" (differ "subscription" "toolcall" refl)
                ∙ by_second "subscription" (differ "subscription" "search" refl)
                ∙ n1.1,
            n1.2,
          ),
          (
            n2.0,
            by_third "search" (differ "search" "toolcall" refl) ∙ n2.1,
            rw (by_first "search" (differ "search" "subscription" refl)) at n2.2,
          ),
          (
            n3.0,
            n3.1,
            rw
                (by_second "toolcall" (differ "toolcall" "search" refl)
                  ∙ by_first "toolcall" (differ "toolcall" "subscription" refl))
                at n3.2,
          ),
        )
