-- ===== src/Cycle/Active.antt =====
-- The open cycle of a quota (internal/store) after each call that succeeds.
use on_watch.Base.{
  ℕ, ◌≡◌, refl, true, Option, none, some, List, [], ◌∷◌, ◌++◌, map, if◌then◌else◌, Eq, arith,
}
use on_watch.Float.{Float64}
use on_watch.Cycle.{
  Row, CycleStore, is_open_for, first_open, query_active_cycle, create_cycle, close_cycle,
  update_cycle, update_cycle_resets_at, new_row,
}

module _ {F K R : Type 0} ⦃e : Eq K⦄ where
  abbrev pub active : K → CycleStore F K R → Option (Row F K R)
  active quota s = first_open quota s.rows

  pub query-active :
      (quota : K) (s : CycleStore F K R) (found : Option (Row F K R))
      → (query_active_cycle quota s).0 ≡ some found
      → active quota s ≡ found
  unfolding query_active_cycle
  query-active quota s found h = ground arith

  first_open-change :
      (change : Row F K R → Row F K R) (quota : K) (rs : List (Row F K R)) (c : Row F K R)
      → ((r : Row F K R) → (change r).quota ≡ r.quota)
      → ((r : Row F K R) → (change r).cycle_end ≡ r.cycle_end)
      → first_open quota rs ≡ some c
      → first_open quota (map (λ r. if is_open_for quota r then change r else r) rs)
        ≡ some (change c)
  first_open-change change quota [] c same_quota same_end h = cc
  first_open-change change quota (r ∷ rs) c same_quota same_end h =
      ground
        (arith, same_quota r, same_end r, first_open-change change quota rs c same_quota same_end)

  pub update_cycle-active :
      (quota : K) (peak delta : F) (s : CycleStore F K R) (c : Row F K R)
      → active quota s ≡ some c
      → (update_cycle quota peak delta s).0 ≡ some tt
      → active quota (update_cycle quota peak delta s).1
        ≡ some (record c { peak = peak; total_delta = delta })
  unfolding update_cycle
  update_cycle-active quota peak delta s c h done = ground (
    arith,
    first_open-change (λ r. record r { peak = peak; total_delta = delta }) quota s.rows c
        (λ r. refl) (λ r. refl) h,
  )

  pub update_resets_at-active :
      (quota : K) (resets_at : R) (s : CycleStore F K R) (c : Row F K R)
      → active quota s ≡ some c
      → (update_cycle_resets_at quota resets_at s).0 ≡ some tt
      → active quota (update_cycle_resets_at quota resets_at s).1
        ≡ some (record c { resets_at = resets_at })
  unfolding update_cycle_resets_at
  update_resets_at-active quota resets_at s c h done = ground (
    arith,
    first_open-change (λ r. record r { resets_at = resets_at }) quota s.rows c (λ r. refl)
        (λ r. refl) h,
  )

  first_open-close :
      (quota : K) (end : ℕ) (peak delta : F) (rs : List (Row F K R))
      → first_open quota (
          map
            (λ r.
              if is_open_for quota r
              then record r { cycle_end = some end; peak = peak; total_delta = delta }
              else r)
            rs)
        ≡ none
  first_open-close quota end peak delta [] = refl
  first_open-close quota end peak delta (r ∷ rs) =
      ground (arith, first_open-close quota end peak delta rs)

  pub close_cycle-active :
      (quota : K) (end : ℕ) (peak delta : F) (s : CycleStore F K R)
      → (close_cycle quota end peak delta s).0 ≡ some tt
      → active quota (close_cycle quota end peak delta s).1 ≡ none
  unfolding close_cycle
  close_cycle-active quota end peak delta s done =
      ground (arith, first_open-close quota end peak delta s.rows)

  first_open-append :
      (quota : K) (rs : List (Row F K R)) (r : Row F K R)
      → first_open quota rs ≡ none
      → is_open_for quota r ≡ true
      → first_open quota (rs ++ r ∷ []) ≡ some r
  first_open-append quota [] r h o = ground arith
  first_open-append quota (x ∷ rs) r h o = ground (arith, first_open-append quota rs r)

module _ {F K R : Type 0} ⦃fl : Float64 F⦄ ⦃e : Eq K⦄ where
  pub create_cycle-active :
      (quota : K) (start : ℕ) (resets_at : R) (s : CycleStore F K R) (id : ℕ)
      → active quota s ≡ none
      → (create_cycle quota start resets_at s).0 ≡ some id
      → active quota (create_cycle quota start resets_at s).1
        ≡ some (new_row fl.zero id quota start resets_at)
  unfolding create_cycle
  create_cycle-active quota start resets_at s id h done = ground (
    arith,
    first_open-append quota s.rows (new_row fl.zero s.next_id quota start resets_at) h,
    e.beq_iff quota quota,
  )
