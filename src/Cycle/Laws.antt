-- ===== src/Cycle/Laws.antt =====
-- What each call of a cycle table (internal/store) does to the open rows and to the closed ones,
-- however the call ends.
use on_watch.Base.{
  ℕ, suc, ◌≤◌, ◌≡◌, refl, Bool, true, false, ◌&&◌, Option, none, some, List, [], ◌∷◌, map,
  if◌then◌else◌, Eq, arith, count, count-append, get_elem?, get_elem?-append, get_elem?-map,
}
use on_watch.Float.{Float64}
use on_watch.Cycle.{
  Row, CycleStore, is_open_for, first_open, update_open, query_active_cycle, close_cycle,
  update_cycle, update_cycle_resets_at, new_row, create_cycle,
}

abbrev pub is_done : {A : Type 0} → Option A → Bool
is_done none = false
is_done (some _) = true

module _ {F K R : Type 0} ⦃e : Eq K⦄ where
  -- How many open rows a quota has.
  abbrev pub open_count : K → CycleStore F K R → ℕ
  open_count quota s = count (is_open_for quota) s.rows

  -- Every closed row of the one table stands unchanged at its place in the other.
  pub record KeepsClosed (s t : CycleStore F K R) : Type 0 where
    pub kept :
        (i end : ℕ) (r : Row F K R)
        → get_elem? s.rows i ≡ some r
        → r.cycle_end ≡ some end
        → get_elem? t.rows i ≡ some r

  pub KeepsClosed-refl : (s : CycleStore F K R) → KeepsClosed s s
  KeepsClosed-refl s = record { kept = λ i end r at closed. at }

  pub KeepsClosed-trans :
      (s t u : CycleStore F K R) → KeepsClosed s t → KeepsClosed t u → KeepsClosed s u
  KeepsClosed-trans s t u p q = record {
    kept = λ i end r at closed. q.kept i end r (p.kept i end r at closed) closed;
  }

  first_open-none :
      (quota : K) (rs : List (Row F K R))
      → first_open quota rs ≡ none
      → count (is_open_for quota) rs ≡ 0
  first_open-none quota [] h = refl
  first_open-none quota (r ∷ rs) h = ground (arith, first_open-none quota rs)

  first_open-some :
      (quota : K) (rs : List (Row F K R)) (r : Row F K R)
      → first_open quota rs ≡ some r
      → (1 ≤ count (is_open_for quota) rs) × (is_open_for quota r ≡ true)
  first_open-some quota [] r h = cc
  first_open-some quota (x ∷ rs) r h = ground (arith, first_open-some quota rs r)

  pub query-rows : (quota : K) (s : CycleStore F K R) → (query_active_cycle quota s).1.rows ≡ s.rows
  unfolding query_active_cycle
  query-rows quota s = ground arith

  pub query-none :
      (quota : K) (s : CycleStore F K R)
      → (query_active_cycle quota s).0 ≡ some none
      → open_count quota s ≡ 0
  unfolding query_active_cycle
  query-none quota s h = ground (arith, first_open-none quota s.rows)

  pub query-some :
      (quota : K) (s : CycleStore F K R) (r : Row F K R)
      → (query_active_cycle quota s).0 ≡ some (some r)
      → (1 ≤ open_count quota s) × (is_open_for quota r ≡ true)
  unfolding query_active_cycle
  query-some quota s r h = ground (arith, first_open-some quota s.rows r)

  count-change :
      (change : Row F K R → Row F K R) (quota j : K) (rs : List (Row F K R))
      → ((r : Row F K R) → (change r).quota ≡ r.quota)
      → ((r : Row F K R) → (change r).cycle_end ≡ r.cycle_end)
      → count (is_open_for j) (map (λ r. if is_open_for quota r then change r else r) rs)
        ≡ count (is_open_for j) rs
  count-change change quota j [] same_quota same_end = refl
  count-change change quota j (r ∷ rs) same_quota same_end =
      ground (arith, same_quota r, same_end r, count-change change quota j rs same_quota same_end)

  pub update_cycle-open :
      (quota j : K) (peak delta : F) (s : CycleStore F K R)
      → open_count j (update_cycle quota peak delta s).1 ≡ open_count j s
  unfolding update_cycle
  update_cycle-open quota j peak delta s = ground (
    arith,
    count-change (λ r. record r { peak = peak; total_delta = delta }) quota j s.rows (λ r. refl)
        (λ r. refl),
  )

  pub update_resets_at-open :
      (quota j : K) (resets_at : R) (s : CycleStore F K R)
      → open_count j (update_cycle_resets_at quota resets_at s).1 ≡ open_count j s
  unfolding update_cycle_resets_at
  update_resets_at-open quota j resets_at s = ground (
    arith,
    count-change (λ r. record r { resets_at = resets_at }) quota j s.rows (λ r. refl) (λ r. refl),
  )

  count-close :
      (quota j : K) (end : ℕ) (peak delta : F) (rs : List (Row F K R))
      → count (is_open_for j) (
          map
            (λ r.
              if is_open_for quota r
              then record r { cycle_end = some end; peak = peak; total_delta = delta }
              else r)
            rs)
        ≡ (if e.beq quota j then 0 else count (is_open_for j) rs)
  count-close quota j end peak delta [] = ground arith
  count-close quota j end peak delta (r ∷ rs) = ground (
    arith,
    e.beq_iff quota j,
    e.beq_iff r.quota j,
    e.beq_iff r.quota quota,
    count-close quota j end peak delta rs,
  )

  pub close_cycle-open :
      (quota j : K) (end : ℕ) (peak delta : F) (s : CycleStore F K R)
      → let (result, s') = close_cycle quota end peak delta s in
        open_count j s' ≡ (if e.beq quota j && is_done result then 0 else open_count j s)
  unfolding close_cycle
  close_cycle-open quota j end peak delta s =
      ground (arith, count-close quota j end peak delta s.rows)

  change_KeepsClosed :
      (change : Row F K R → Row F K R) (quota : K) (s : CycleStore F K R)
      → KeepsClosed s (update_open change quota s).1
  change_KeepsClosed change quota s = record {
    kept = λ i end r at closed.
        ground
          (arith, get_elem?-map (λ r. if is_open_for quota r then change r else r) s.rows i at);
  }

  pub update_cycle-KeepsClosed :
      (quota : K) (peak delta : F) (s : CycleStore F K R)
      → KeepsClosed s (update_cycle quota peak delta s).1
  unfolding update_cycle
  update_cycle-KeepsClosed quota peak delta s = change_KeepsClosed _ quota s

  pub update_resets_at-KeepsClosed :
      (quota : K) (resets_at : R) (s : CycleStore F K R)
      → KeepsClosed s (update_cycle_resets_at quota resets_at s).1
  unfolding update_cycle_resets_at
  update_resets_at-KeepsClosed quota resets_at s = change_KeepsClosed _ quota s

  pub close_cycle-KeepsClosed :
      (quota : K) (end : ℕ) (peak delta : F) (s : CycleStore F K R)
      → KeepsClosed s (close_cycle quota end peak delta s).1
  unfolding close_cycle
  close_cycle-KeepsClosed quota end peak delta s = change_KeepsClosed _ quota s

  pub query-KeepsClosed :
      (quota : K) (s : CycleStore F K R) → KeepsClosed s (query_active_cycle quota s).1
  query-KeepsClosed quota s = record { kept = λ i end r at closed. rw (query-rows quota s) at }

module _ {F K R : Type 0} ⦃fl : Float64 F⦄ ⦃e : Eq K⦄ where
  pub create_cycle-open :
      (quota j : K) (start : ℕ) (resets_at : R) (s : CycleStore F K R)
      → let (result, s') = create_cycle quota start resets_at s in
        (open_count j s' ≤ (if e.beq quota j then suc (open_count j s) else open_count j s))
        × (open_count j s ≤ open_count j s')
        × (is_done result ≡ true → e.beq quota j ≡ true → open_count j s' ≡ suc (open_count j s))
  unfolding create_cycle
  create_cycle-open quota j start resets_at s = ground (
    arith,
    count-append (is_open_for j) s.rows (new_row fl.zero s.next_id quota start resets_at ∷ []),
  )

  pub create_cycle-KeepsClosed :
      (quota : K) (start : ℕ) (resets_at : R) (s : CycleStore F K R)
      → KeepsClosed s (create_cycle quota start resets_at s).1
  unfolding create_cycle
  create_cycle-KeepsClosed quota start resets_at s = record {
    kept = λ i end r at closed. ground (
      arith,
      get_elem?-append s.rows (new_row fl.zero s.next_id quota start resets_at ∷ []) i at,
    );
  }
