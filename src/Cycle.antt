-- ===== src/Cycle.antt =====
-- The reset-cycle tables of internal/store, generic in the key of a quota and in the kind of its
-- reset time: `reset_cycles` (store.go), `anthropic_reset_cycles` (anthropic_store.go) and
-- `codex_reset_cycles` (codex_store.go) have one shape and the same statements.
-- Times are nanoseconds since the zero time of Go; formatting a time for its column and parsing
-- it back gives the same instant.
pub mod Laws
pub mod Invariant
pub mod Active
pub mod Others
pub mod Anthropic
pub mod Codex
use on_watch.Base.{
  ℕ, suc, Bool, true, false, ◌&&◌, Option, none, some, List, [], ◌∷◌, ◌++◌, map, if◌then◌else◌, Eq,
}
use on_watch.Float.{Float64}

pub record Row (F K R : Type 0) : Type 0 where
  pub id : ℕ
  pub quota : K
  pub cycle_start : ℕ
  pub cycle_end : Option ℕ
  pub resets_at : R
  pub peak : F
  pub total_delta : F

-- How a call of the database ends. `id_lost`: the row of an `INSERT` is written, and
-- `LastInsertId` fails; any other call takes this for success.
pub data Outcome : Type 0 where
  done failed id_lost : Outcome

-- A table, and the outcomes of the calls that are still to come; with none left all succeed.
pub record CycleStore (F K R : Type 0) : Type 0 where
  pub rows : List (Row F K R)
  pub next_id : ℕ
  pub outcomes : List Outcome

abbrev pub next_outcome : List Outcome → Outcome
next_outcome [] = done
next_outcome (o ∷ os) = o

abbrev pub other_outcomes : List Outcome → List Outcome
other_outcomes [] = []
other_outcomes (o ∷ os) = os

abbrev is_none : Option ℕ → Bool
is_none none = true
is_none (some _) = false

module _ {F K R : Type 0} ⦃e : Eq K⦄ where
  -- `WHERE quota_name = ? AND cycle_end IS NULL`
  abbrev pub is_open_for : K → Row F K R → Bool
  is_open_for quota r = e.beq r.quota quota && is_none r.cycle_end

  abbrev pub first_open : K → List (Row F K R) → Option (Row F K R)
  first_open quota [] = none
  first_open quota (r ∷ rs) = if is_open_for quota r then some r else first_open quota rs

  -- An `UPDATE` of the open rows of a quota. `none` is an error.
  abbrev pub update_open :
      (Row F K R → Row F K R) → K → CycleStore F K R → Option (Unit {0}) × CycleStore F K R
  update_open change quota s =
      let rest = record s { outcomes = other_outcomes s.outcomes } in
      elim (next_outcome s.outcomes) [
        | failed ↦ (none, rest)
        | _ ↦ (
          some tt,
          record rest { rows = map (λ r. if is_open_for quota r then change r else r) s.rows },
        )
      ]

  unfoldable pub query_active_cycle :
      K → CycleStore F K R → Option (Option (Row F K R)) × CycleStore F K R
  query_active_cycle quota s =
      let rest = record s { outcomes = other_outcomes s.outcomes } in
      elim (next_outcome s.outcomes) [
        | failed ↦ (none, rest)
        | _ ↦ (some (first_open quota s.rows), rest)
      ]

  unfoldable pub close_cycle :
      K → ℕ → F → F → CycleStore F K R → Option (Unit {0}) × CycleStore F K R
  close_cycle quota cycle_end peak delta =
      update_open (λ r. record r { cycle_end = some cycle_end; peak = peak; total_delta = delta })
        quota

  unfoldable pub update_cycle : K → F → F → CycleStore F K R → Option (Unit {0}) × CycleStore F K R
  update_cycle quota peak delta =
      update_open (λ r. record r { peak = peak; total_delta = delta }) quota

  unfoldable pub update_cycle_resets_at :
      K → R → CycleStore F K R → Option (Unit {0}) × CycleStore F K R
  update_cycle_resets_at quota resets_at =
      update_open (λ r. record r { resets_at = resets_at }) quota

-- The columns `peak` and `total_delta` default to 0.
abbrev pub new_row : {F K R : Type 0} → F → ℕ → K → ℕ → R → Row F K R
new_row zero id quota cycle_start resets_at = record {
  id = id;
  quota = quota;
  cycle_start = cycle_start;
  cycle_end = none;
  resets_at = resets_at;
  peak = zero;
  total_delta = zero;
}

module _ {F K R : Type 0} ⦃fl : Float64 F⦄ where
  -- `INSERT`; the result is the row's id.
  unfoldable pub create_cycle : K → ℕ → R → CycleStore F K R → Option ℕ × CycleStore F K R
  create_cycle quota cycle_start resets_at s =
      let rest = record s { outcomes = other_outcomes s.outcomes } in
      let row = new_row fl.zero s.next_id quota cycle_start resets_at in
      let inserted = record rest { rows = s.rows ++ row ∷ []; next_id = suc s.next_id } in
      elim (next_outcome s.outcomes) [
        | failed ↦ (none, rest)
        | id_lost ↦ (none, inserted)
        | done ↦ (some s.next_id, inserted)
      ]
