-- ===== src/Cycle/Invariant.antt =====
-- The invariant of a cycle table (internal/store), and that every call keeps it, however it ends.
use on_watch.Base.{ℕ, ◌≤◌, ◌≡◌, some, Eq, arith}
use on_watch.Float.{Float64}
use on_watch.Cycle.{
  CycleStore, query_active_cycle, create_cycle, close_cycle, update_cycle, update_cycle_resets_at,
}
use on_watch.Cycle.Laws.{
  open_count, KeepsClosed, KeepsClosed-refl, KeepsClosed-trans, query-rows, update_cycle-open,
  update_resets_at-open, close_cycle-open, create_cycle-open, update_cycle-KeepsClosed,
  update_resets_at-KeepsClosed, close_cycle-KeepsClosed, create_cycle-KeepsClosed,
  query-KeepsClosed,
}

module _ {F K R : Type 0} ⦃e : Eq K⦄ where
  -- At most one cycle of a quota is open.
  abbrev pub HasOneOpen : CycleStore F K R → Type 0
  HasOneOpen s = (quota : K) → open_count quota s ≤ 1

  -- Besides, no cycle that was closed in an earlier table has changed or gone.
  pub record IsSound (before s : CycleStore F K R) : Type 0 where
    pub one : HasOneOpen s
    pub kept : KeepsClosed before s

  pub IsSound-refl : (s : CycleStore F K R) → HasOneOpen s → IsSound s s
  IsSound-refl s h = record { one = h; kept = KeepsClosed-refl s }

  pub query-IsSound :
      (quota : K) (before s : CycleStore F K R)
      → IsSound before s
      → IsSound before (query_active_cycle quota s).1
  query-IsSound quota before s h = record {
    one = λ j. rw (query-rows quota s) (h.one j);
    kept = KeepsClosed-trans before s _ h.kept (query-KeepsClosed quota s);
  }

  pub update_cycle-IsSound :
      (quota : K) (peak delta : F) (before s : CycleStore F K R)
      → IsSound before s
      → IsSound before (update_cycle quota peak delta s).1
  update_cycle-IsSound quota peak delta before s h = record {
    one = λ j. rw (update_cycle-open quota j peak delta s) (h.one j);
    kept = KeepsClosed-trans before s _ h.kept (update_cycle-KeepsClosed quota peak delta s);
  }

  pub update_resets_at-IsSound :
      (quota : K) (resets_at : R) (before s : CycleStore F K R)
      → IsSound before s
      → IsSound before (update_cycle_resets_at quota resets_at s).1
  update_resets_at-IsSound quota resets_at before s h = record {
    one = λ j. rw (update_resets_at-open quota j resets_at s) (h.one j);
    kept = KeepsClosed-trans before s _ h.kept (update_resets_at-KeepsClosed quota resets_at s);
  }

  pub close_cycle-IsSound :
      (quota : K) (end : ℕ) (peak delta : F) (before s : CycleStore F K R)
      → IsSound before s
      → IsSound before (close_cycle quota end peak delta s).1
  close_cycle-IsSound quota end peak delta before s h = record {
    one = λ j. ground (arith, h.one j, close_cycle-open quota j end peak delta s);
    kept = KeepsClosed-trans before s _ h.kept (close_cycle-KeepsClosed quota end peak delta s);
  }

  -- A close that succeeds leaves no open cycle.
  pub close_cycle-none :
      (quota : K) (end : ℕ) (peak delta : F) (s : CycleStore F K R)
      → (close_cycle quota end peak delta s).0 ≡ some tt
      → open_count quota (close_cycle quota end peak delta s).1 ≡ 0
  close_cycle-none quota end peak delta s done =
      ground (arith, e.beq_iff quota quota, close_cycle-open quota quota end peak delta s)

module _ {F K R : Type 0} ⦃fl : Float64 F⦄ ⦃e : Eq K⦄ where
  pub create_cycle-IsSound :
      (quota : K) (start : ℕ) (resets_at : R) (before s : CycleStore F K R)
      → open_count quota s ≡ 0
      → IsSound before s
      → IsSound before (create_cycle quota start resets_at s).1
  create_cycle-IsSound quota start resets_at before s free h = record {
    one = λ j.
        ground (arith, h.one j, e.beq_iff quota j, create_cycle-open quota j start resets_at s);
    kept = KeepsClosed-trans before s _ h.kept (create_cycle-KeepsClosed quota start resets_at s);
  }

  pub create_cycle-one :
      (quota : K) (start : ℕ) (resets_at : R) (s : CycleStore F K R) (id : ℕ)
      → open_count quota s ≡ 0
      → (create_cycle quota start resets_at s).0 ≡ some id
      → open_count quota (create_cycle quota start resets_at s).1 ≡ 1
  create_cycle-one quota start resets_at s id free done =
      ground (arith, e.beq_iff quota quota, create_cycle-open quota quota start resets_at s)
