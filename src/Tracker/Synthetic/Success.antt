-- ===== src/Tracker/Synthetic/Success.antt =====
-- How `Process` of internal/tracker/tracker.go ends while the database works.
use on_watch.Base.{
  ℕ, ◌≡◌, refl, true, Option, none, some, [], String, string_eq, arith, Bool-cases, inl, inr,
}
use on_watch.Float.{Float64}
use on_watch.Cycle.{query_active_cycle, create_cycle, close_cycle, update_cycle}
use on_watch.Tracker.Action.{Result, ok, Action, and_then, and_then-holds}
use on_watch.Tracker.Synthetic.{
  ResetCycle, QuotaInfo, Snapshot, Slot, last_sub, last_search, last_tool, Tracker, first_snapshot,
  renew, same_cycle, dispatch, process_quota, process, set_last_requests, is_reset_detected,
}

module _ {F : Type 0} ⦃fl : Float64 F⦄ where
  -- No call of the database that is still to come fails.
  abbrev pub IsUp : Tracker F → Type 0
  IsUp t = t.store.outcomes ≡ []

  abbrev pub Succeeds : Result (Unit {0}) × Tracker F → Type 0
  Succeeds r = (r.0 ≡ ok tt) × IsUp r.1

  set_last-IsUp : (slot : Slot) (v : F) (t : Tracker F) → IsUp t → IsUp (set_last_requests slot v t)
  set_last-IsUp last_sub v t up = up
  set_last-IsUp last_search v t up = up
  set_last-IsUp last_tool v t up = up

  first_snapshot-Succeeds :
      (quota : String) (at : ℕ) (info : QuotaInfo F) (slot : Slot) (t : Tracker F)
      → IsUp t
      → Succeeds (first_snapshot quota at info slot t)
  unfolding first_snapshot create_cycle update_cycle
  first_snapshot-Succeeds quota at info slot t up = ground (arith, up)

  renew-Succeeds :
      (quota : String) (at : ℕ) (info : QuotaInfo F) (slot : Slot) (cycle : ResetCycle F)
      (t : Tracker F)
      → IsUp t
      → Succeeds (renew quota at info slot cycle t)
  unfolding renew create_cycle update_cycle close_cycle
  renew-Succeeds quota at info slot cycle t up = ground (arith, up)

  same_cycle-Succeeds :
      (quota : String) (info : QuotaInfo F) (slot : Slot) (cycle : ResetCycle F) (t : Tracker F)
      → IsUp t
      → Succeeds (same_cycle quota info slot cycle t)
  unfolding same_cycle update_cycle
  same_cycle-Succeeds quota info slot cycle t up = ground (arith, up)

  dispatch-Succeeds :
      (quota : String) (at : ℕ) (info : QuotaInfo F) (slot : Slot) (found : Option (ResetCycle F))
      (t : Tracker F)
      → IsUp t
      → Succeeds (dispatch quota at info slot found t)
  dispatch-Succeeds quota at info slot none t up = first_snapshot-Succeeds quota at info slot t up
  dispatch-Succeeds quota at info slot (some cycle) t up =
      elim (Bool-cases (is_reset_detected at cycle.resets_at info.renews_at)) [
        | inl reset ↦ rw reset (renew-Succeeds quota at info slot cycle t up)
        | inr same ↦ rw same (same_cycle-Succeeds quota info slot cycle t up)
      ]

  pub process_quota-Succeeds :
      (quota : String) (at : ℕ) (info : QuotaInfo F) (slot : Slot) (t : Tracker F)
      → IsUp t
      → Succeeds (process_quota quota at info slot t)
  unfolding process_quota query_active_cycle
  process_quota-Succeeds quota at info slot t up =
      rw up (dispatch-Succeeds quota at info slot _ _ refl)

  and_then_up :
      (Q : Result (Unit {0}) × Tracker F → Type 0) (r : Result (Unit {0}) × Tracker F)
      (next : Action (Tracker F) (Unit {0}))
      → Succeeds r
      → ((u : Tracker F) → IsUp u → Q (next u))
      → Q (and_then (λ _. next) r)
  and_then_up Q r next done rest =
      and_then-holds Q (λ _. next) r (λ _ _. rest r.1 done.1) (λ e h. absurd cc)

  -- While no call of the database fails, `Process` returns no error for any snapshot, and marks
  -- its last values as known.
  pub process-Succeeds :
      (snapshot : Snapshot F) (t : Tracker F)
      → IsUp t
      → ((process snapshot t).0 ≡ ok tt) × ((process snapshot t).1.has_last_values ≡ true)
  unfolding process
  process-Succeeds snapshot t up =
      let Q : Result (Unit {0}) × Tracker F → Type 0 =
        λ r. (r.0 ≡ ok tt) × (r.1.has_last_values ≡ true) in
      let at = snapshot.captured_at in
      and_then_up Q (process_quota "subscription" at snapshot.sub last_sub t) _
        (process_quota-Succeeds "subscription" at snapshot.sub last_sub t up)
        (λ u up.
          and_then_up Q (process_quota "search" at snapshot.search last_search u) _
            (process_quota-Succeeds "search" at snapshot.search last_search u up)
            (λ v up.
              and_then_up Q (process_quota "toolcall" at snapshot.tool_call last_tool v) _
                (process_quota-Succeeds "toolcall" at snapshot.tool_call last_tool v up)
                (λ w up. (refl, refl))))
