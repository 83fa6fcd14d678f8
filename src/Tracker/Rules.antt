-- ===== src/Tracker/Rules.antt =====
-- The calls that the trackers of internal/tracker have in common, on a tracker of any kind that
-- holds a cycle table: what a branch of `processQuota` does to the table, whichever calls fail.
use native.Mathlib.Nat.{le_antisymm}
use on_watch.Base.{ℕ, ◌≡◌, Option, none, some, Eq}
use on_watch.Float.{Float64}
use on_watch.Cycle.{
  Row, CycleStore, query_active_cycle, create_cycle, close_cycle, update_cycle,
  update_cycle_resets_at,
}
use on_watch.Cycle.Laws.{
  open_count, query-rows, query-none, query-some, update_cycle-open, update_resets_at-open,
}
use on_watch.Cycle.Invariant.{
  IsSound, query-IsSound, update_cycle-IsSound, update_resets_at-IsSound, close_cycle-IsSound,
  close_cycle-none, create_cycle-IsSound, create_cycle-one,
}
use on_watch.Tracker.Action.{
  Action, Result, ok, ◌>>=◌, ◌>>◌, modify, or_fail, and_then-holds, or_fail-ok, CycleError,
  initial_peak_failed, new_cycle_failed, close_failed, query_failed,
}

module _ {T F K R : Type 0} ⦃fl : Float64 F⦄ ⦃e : Eq K⦄ (store : T → CycleStore F K R)
    (with_store : T → CycleStore F K R → T)
    (law : (t : T) (s : CycleStore F K R) → store (with_store t s) ≡ s) where
  -- A call of the table, with the error that its failure is wrapped into.
  abbrev call :
      {A : Type 0} → CycleError → (CycleStore F K R → Option A × CycleStore F K R) → Action T A
  call error f t = let (r, s) = f (store t) in (or_fail error r, with_store t s)

  -- The end of a call for a quota: the table is sound, and after a success the quota has its cycle.
  pub record IsDone (quota : K) (before : CycleStore F K R) (r : Result (Unit {0}) × T)
      : Type 0 where
    pub sound : IsSound before (store r.1)
    pub open_one : r.0 ≡ ok tt → open_count quota (store r.1) ≡ 1

  -- A step in memory at the end.
  abbrev IsQuiet : (T → T) → Type 0
  IsQuiet finish = (t : T) → store (finish t) ≡ store t

  IsSound-in :
      (before : CycleStore F K R) (t : T) (s : CycleStore F K R)
      → IsSound before s
      → IsSound before (store (with_store t s))
  IsSound-in before t s sound = rw (law t s) sound

  pub memory-IsDone :
      (quota : K) (before : CycleStore F K R) (finish : T → T) (t : T)
      → IsQuiet finish
      → IsSound before (store t)
      → open_count quota (store t) ≡ 1
      → IsDone quota before (modify finish t)
  memory-IsDone quota before finish t quiet sound one = record {
    sound = rw (quiet t) sound;
    open_one = λ _. rw (quiet t) one;
  }

  -- An update of the open cycle, and what follows.
  pub update-IsDone :
      (error : CycleError) (quota : K) (peak delta : F) (before : CycleStore F K R)
      (next : Action T (Unit {0})) (t : T)
      → ((u : T)
          → IsSound before (store u)
          → open_count quota (store u) ≡ 1
          → IsDone quota before (next u))
      → IsSound before (store t)
      → open_count quota (store t) ≡ 1
      → IsDone quota before ((call error (update_cycle quota peak delta) >> next) t)
  update-IsDone error quota peak delta before next t rest sound one =
      let s = store t in
      let sound' =
        IsSound-in before t (update_cycle quota peak delta s).1
          (update_cycle-IsSound quota peak delta before s sound) in
      and_then-holds (IsDone quota before) (λ _. next)
        (call error (update_cycle quota peak delta) t)
        (λ _ _. rest _ sound' (
          rw (law t (update_cycle quota peak delta s).1)
            (rw (update_cycle-open quota quota peak delta s) one)))
        (λ _ _. record { sound = sound'; open_one = λ h. cc })

  pub update_resets_at-IsDone :
      (error : CycleError) (quota : K) (resets_at : R) (before : CycleStore F K R)
      (next : Action T (Unit {0})) (t : T)
      → ((u : T)
          → IsSound before (store u)
          → open_count quota (store u) ≡ 1
          → IsDone quota before (next u))
      → IsSound before (store t)
      → open_count quota (store t) ≡ 1
      → IsDone quota before ((call error (update_cycle_resets_at quota resets_at) >> next) t)
  update_resets_at-IsDone error quota resets_at before next t rest sound one =
      let s = store t in
      let sound' =
        IsSound-in before t (update_cycle_resets_at quota resets_at s).1
          (update_resets_at-IsSound quota resets_at before s sound) in
      and_then-holds (IsDone quota before) (λ _. next)
        (call error (update_cycle_resets_at quota resets_at) t)
        (λ _ _. rest _ sound' (
          rw (law t (update_cycle_resets_at quota resets_at s).1)
            (rw (update_resets_at-open quota quota resets_at s) one)))
        (λ _ _. record { sound = sound'; open_one = λ h. cc })

  -- A cycle inserted where none is open, its first peak, and the end in memory.
  pub create-IsDone :
      (error : CycleError) (quota : K) (at : ℕ) (resets_at : R) (v : F) (before : CycleStore F K R)
      (finish : T → T) (t : T)
      → IsQuiet finish
      → IsSound before (store t)
      → open_count quota (store t) ≡ 0
      → IsDone quota before (
          (call error (create_cycle quota at resets_at)
              >> (call initial_peak_failed (update_cycle quota v fl.zero) >> modify finish))
            t)
  create-IsDone error quota at resets_at v before finish t quiet sound free =
      let s = store t in
      let sound' =
        IsSound-in before t (create_cycle quota at resets_at s).1
          (create_cycle-IsSound quota at resets_at before s free sound) in
      and_then-holds (IsDone quota before) _ (call error (create_cycle quota at resets_at) t)
        (λ id made.
          update-IsDone initial_peak_failed quota v fl.zero before (modify finish) _
            (λ u. memory-IsDone quota before finish u quiet) sound'
            (rw (law t (create_cycle quota at resets_at s).1)
              (create_cycle-one quota at resets_at s id free (or_fail-ok error _ id made))))
        (λ _ _. record { sound = sound'; open_one = λ h. cc })

  -- The open cycle closed, and its successor.
  pub renew-IsDone :
      (quota : K) (at end : ℕ) (resets_at : R) (peak total v : F) (before : CycleStore F K R)
      (finish : T → T) (t : T)
      → IsQuiet finish
      → IsSound before (store t)
      → IsDone quota before (
          (call close_failed (close_cycle quota end peak total)
              >> (call new_cycle_failed (create_cycle quota at resets_at)
                  >> (call initial_peak_failed (update_cycle quota v fl.zero) >> modify finish)))
            t)
  renew-IsDone quota at end resets_at peak total v before finish t quiet sound =
      let s = store t in
      let sound' =
        IsSound-in before t (close_cycle quota end peak total s).1
          (close_cycle-IsSound quota end peak total before s sound) in
      and_then-holds (IsDone quota before) _
        (call close_failed (close_cycle quota end peak total) t)
        (λ _ closed.
          create-IsDone new_cycle_failed quota at resets_at v before finish _ quiet sound' (
            rw (law t (close_cycle quota end peak total s).1)
              (close_cycle-none quota end peak total s (or_fail-ok close_failed _ tt closed))))
        (λ _ _. record { sound = sound'; open_one = λ h. cc })

  -- The query, and what is done with its answer.
  pub query-IsDone :
      (quota : K) (before : CycleStore F K R) (next : Option (Row F K R) → Action T (Unit {0}))
      (t : T)
      → ((u : T)
          → IsSound before (store u)
          → open_count quota (store u) ≡ 0
          → IsDone quota before (next none u))
      → ((cycle : Row F K R) (u : T)
          → IsSound before (store u)
          → open_count quota (store u) ≡ 1
          → IsDone quota before (next (some cycle) u))
      → IsSound before (store t)
      → IsDone quota before ((call query_failed (query_active_cycle quota) >>= next) t)
  query-IsDone quota before next t on_none on_some sound =
      and_then-holds (IsDone quota before) next (call query_failed (query_active_cycle quota) t)
        (λ found answered. by_answer found (or_fail-ok query_failed _ found answered))
        (λ _ _. record { sound = sound'; open_one = λ h. cc })
    where
      s : CycleStore F K R
      s = store t

      u : T
      u = with_store t (query_active_cycle quota s).1

      sound' : IsSound before (store u)
      sound' = rw (law t (query_active_cycle quota s).1) (query-IsSound quota before s sound)

      by_answer :
          (found : Option (Row F K R))
          → (query_active_cycle quota s).0 ≡ some found
          → IsDone quota before (next found u)
      by_answer none answer = on_none u sound' (
          rw (law t (query_active_cycle quota s).1)
            (rw (query-rows quota s) (query-none quota s answer)))
      by_answer (some cycle) answer = on_some cycle u sound' (
          rw (law t (query_active_cycle quota s).1) (
            rw (query-rows quota s)
              (le_antisymm (sound.one quota) (query-some quota s cycle answer).0)))
