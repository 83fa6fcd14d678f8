-- ===== src/Cycle/Others.antt =====
-- The calls on the cycles of a quota (internal/store) leave the open cycle of every other.
use on_watch.Base.{
  ℕ, ◌≡◌, ◌≢◌, refl, false, some, List, [], ◌∷◌, ◌++◌, map, if◌then◌else◌, Eq, arith,
}
use on_watch.Float.{Float64}
use on_watch.Cycle.{
  Row, CycleStore, is_open_for, first_open, query_active_cycle, create_cycle, close_cycle,
  update_cycle, new_row,
}
use on_watch.Cycle.Active.{active}

module _ {F K R : Type 0} ⦃e : Eq K⦄ where
  first_open-other :
      (change : Row F K R → Row F K R) (other quota : K) (rs : List (Row F K R))
      → ((r : Row F K R) → (change r).quota ≡ r.quota)
      → other ≢ quota
      → first_open other (map (λ r. if is_open_for quota r then change r else r) rs)
        ≡ first_open other rs
  first_open-other change other quota [] same differs = refl
  first_open-other change other quota (r ∷ rs) same differs = ground (
    arith,
    same r,
    first_open-other change other quota rs same differs,
    e.beq_iff r.quota other,
    e.beq_iff r.quota quota,
  )

  pub query-other :
      (other quota : K) (s : CycleStore F K R)
      → active other (query_active_cycle quota s).1 ≡ active other s
  unfolding query_active_cycle
  query-other other quota s = ground arith

  pub update_cycle-other :
      (other quota : K) (peak delta : F) (s : CycleStore F K R)
      → other ≢ quota
      → active other (update_cycle quota peak delta s).1 ≡ active other s
  unfolding update_cycle
  update_cycle-other other quota peak delta s differs = ground (
    arith,
    first_open-other (λ r. record r { peak = peak; total_delta = delta }) other quota s.rows
        (λ r. refl) differs,
  )

  pub close_cycle-other :
      (other quota : K) (end : ℕ) (peak delta : F) (s : CycleStore F K R)
      → other ≢ quota
      → active other (close_cycle quota end peak delta s).1 ≡ active other s
  unfolding close_cycle
  close_cycle-other other quota end peak delta s differs = ground (
    arith,
    first_open-other (λ r. record r { cycle_end = some end; peak = peak; total_delta = delta })
        other quota s.rows (λ r. refl) differs,
  )

  first_open-append_other :
      (other : K) (rs : List (Row F K R)) (r : Row F K R)
      → is_open_for other r ≡ false
      → first_open other (rs ++ r ∷ []) ≡ first_open other rs
  first_open-append_other other [] r h = ground arith
  first_open-append_other other (x ∷ rs) r h = ground (arith, first_open-append_other other rs r)

module _ {F K R : Type 0} ⦃fl : Float64 F⦄ ⦃e : Eq K⦄ where
  pub create_cycle-other :
      (other quota : K) (start : ℕ) (resets_at : R) (s : CycleStore F K R)
      → other ≢ quota
      → active other (create_cycle quota start resets_at s).1 ≡ active other s
  unfolding create_cycle
  create_cycle-other other quota start resets_at s differs = ground (
    arith,
    first_open-append_other other s.rows (new_row fl.zero s.next_id quota start resets_at),
    e.beq_iff quota other,
  )
