-- ===== src/Tracker/Synthetic/Cycles.antt =====
-- What `Process` of internal/tracker/tracker.go does to the rows of `reset_cycles`, whichever of
-- its calls of the database fail.
use on_watch.Base.{ℕ, ◌≡◌, refl, ◌∙◌, String, string_eq, if_holds, arith}
use on_watch.Float.{Float64}
use on_watch.Cycle.{CycleStore}
use on_watch.Cycle.Laws.{open_count}
use on_watch.Cycle.Invariant.{HasOneOpen, IsSound, IsSound-refl}
use on_watch.Tracker.Action.{
  Action, Result, ok, ◌>>◌, modify, and_then-holds, create_failed, update_failed,
}
use on_watch.Tracker.Rules
use on_watch.Tracker.Synthetic.{
  ResetCycle, QuotaInfo, Snapshot, Slot, last_sub, last_search, last_tool, Tracker, last_requests,
  set_last_requests, call_on_reset, cycle_end_time, final_total, add_positive, raise_peak,
  first_snapshot, renew, same_cycle, dispatch, process_quota, process, is_reset_detected,
}

module _ {F : Type 0} ⦃fl : Float64 F⦄ where
  abbrev table : Tracker F → CycleStore F String ℕ
  table t = t.store

  abbrev with_table : Tracker F → CycleStore F String ℕ → Tracker F
  with_table t s = record t { store = s }

  IsDone : String → CycleStore F String ℕ → Result (Unit {0}) × Tracker F → Type 0
  IsDone = Rules.IsDone table with_table (λ t s. refl)

  set_last-store :
      (slot : Slot) (v : F) (t : Tracker F) → (set_last_requests slot v t).store ≡ t.store
  set_last-store last_sub v t = refl
  set_last-store last_search v t = refl
  set_last-store last_tool v t = refl

  call_on_reset-store : (quota : String) (t : Tracker F) → (call_on_reset quota t).store ≡ t.store
  call_on_reset-store quota t = ground arith

  first_snapshot-IsDone :
      (quota : String) (at : ℕ) (info : QuotaInfo F) (slot : Slot) (before : CycleStore F String ℕ)
      (t : Tracker F)
      → IsSound before t.store
      → open_count quota t.store ≡ 0
      → IsDone quota before (first_snapshot quota at info slot t)
  unfolding first_snapshot IsDone
  first_snapshot-IsDone quota at info slot before t =
      Rules.create-IsDone table with_table (λ t s. refl) create_failed quota at info.renews_at
        info.requests before (set_last_requests slot info.requests) t
        (set_last-store slot info.requests)

  renew-IsDone :
      (quota : String) (at : ℕ) (info : QuotaInfo F) (slot : Slot) (cycle : ResetCycle F)
      (before : CycleStore F String ℕ) (t : Tracker F)
      → IsSound before t.store
      → IsDone quota before (renew quota at info slot cycle t)
  unfolding renew IsDone
  renew-IsDone quota at info slot cycle before t =
      Rules.renew-IsDone table with_table (λ t s. refl) quota at (cycle_end_time at cycle.resets_at)
        info.renews_at cycle.peak (final_total slot info cycle t) info.requests before
        (λ u. call_on_reset quota (set_last_requests slot info.requests u)) t
        (λ u.
          call_on_reset-store quota (set_last_requests slot info.requests u)
          ∙ set_last-store slot info.requests u)

  same_cycle-IsDone :
      (quota : String) (info : QuotaInfo F) (slot : Slot) (cycle : ResetCycle F)
      (before : CycleStore F String ℕ) (t : Tracker F)
      → IsSound before t.store
      → open_count quota t.store ≡ 1
      → IsDone quota before (same_cycle quota info slot cycle t)
  unfolding same_cycle IsDone
  same_cycle-IsDone quota info slot cycle before t sound one =
      let done = λ (u : Tracker F).
        Rules.memory-IsDone table with_table (λ t s. refl) quota before
          (set_last_requests slot info.requests) u (set_last-store slot info.requests) in
      let saved = λ (delta : F).
        Rules.update-IsDone table with_table (λ t s. refl) update_failed quota
          (raise_peak cycle.peak info.requests) delta before
          (modify (set_last_requests slot info.requests)) t done sound one in
      if_holds (IsDone quota before) t.has_last_values _ _
        (λ _. saved (add_positive cycle.total_delta info.requests (last_requests slot t)))
        (λ _.
          if_holds (IsDone quota before) (fl.lt cycle.peak info.requests) _ _
            (λ _. saved cycle.total_delta) (λ _. done t sound one))

  process_quota-IsDone :
      (quota : String) (at : ℕ) (info : QuotaInfo F) (slot : Slot) (before : CycleStore F String ℕ)
      (t : Tracker F)
      → IsSound before t.store
      → IsDone quota before (process_quota quota at info slot t)
  unfolding process_quota IsDone
  process_quota-IsDone quota at info slot before t =
      Rules.query-IsDone table with_table (λ t s. refl) quota before (dispatch quota at info slot) t
        (first_snapshot-IsDone quota at info slot before)
        (λ cycle u sound one.
          if_holds (λ m. IsDone quota before (m u))
            (is_reset_detected at cycle.resets_at info.renews_at) (renew quota at info slot cycle)
            (same_cycle quota info slot cycle)
            (λ _. renew-IsDone quota at info slot cycle before u sound)
            (λ _. same_cycle-IsDone quota info slot cycle before u sound one))

  -- Whatever a snapshot shows and whichever calls of the database fail, after `processQuota` no
  -- quota has two open cycles if none had before, and every cycle that was closed before stands
  -- unchanged; and where it returns no error, its quota has exactly one open cycle.
  pub process_quota-IsSound_synthetic :
      (quota : String) (at : ℕ) (info : QuotaInfo F) (slot : Slot) (t : Tracker F)
      → HasOneOpen t.store
      → let r = process_quota quota at info slot t in
        IsSound t.store r.1.store × (r.0 ≡ ok tt → open_count quota r.1.store ≡ 1)
  unfolding IsDone
  process_quota-IsSound_synthetic quota at info slot t one =
      let d = process_quota-IsDone quota at info slot t.store t (IsSound-refl t.store one) in
      (d.sound, d.open_one)

  IsSound-then :
      (quota : String) (at : ℕ) (info : QuotaInfo F) (slot : Slot) (before : CycleStore F String ℕ)
      (next : Action (Tracker F) (Unit {0})) (t : Tracker F)
      → IsSound before t.store
      → ((u : Tracker F) → IsSound before u.store → IsSound before (next u).1.store)
      → IsSound before ((process_quota quota at info slot >> next) t).1.store
  unfolding IsDone
  IsSound-then quota at info slot before next t sound rest =
      let d = process_quota-IsDone quota at info slot before t sound in
      and_then-holds (λ r. IsSound before r.1.store) (λ _. next)
        (process_quota quota at info slot t) (λ _ _. rest _ d.sound) (λ _ _. d.sound)

  -- A whole snapshot gives no quota two open cycles, if none had two before, and changes no cycle
  -- that was closed before it, also where a failure ends `Process` early.
  pub process-IsSound_synthetic :
      (snapshot : Snapshot F) (t : Tracker F)
      → HasOneOpen t.store
      → IsSound t.store (process snapshot t).1.store
  unfolding process
  process-IsSound_synthetic snapshot t one =
      let at = snapshot.captured_at in
      IsSound-then "subscription" at snapshot.sub last_sub t.store _ t (IsSound-refl t.store one)
        (λ u h.
          IsSound-then "search" at snapshot.search last_search t.store _ u h (λ v k.
            IsSound-then "toolcall" at snapshot.tool_call last_tool t.store _ v k (λ w l. l)))
