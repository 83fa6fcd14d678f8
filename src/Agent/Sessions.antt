-- ===== src/Agent/Sessions.antt =====
-- `SessionManager` of internal/agent/session_manager.go: usage sessions, found by changes of the
-- polled values, and the calls of the table `sessions` that it makes (internal/store/store.go).
-- Times are nanoseconds; a poll is given its clock reading and the identifier that it generates.
pub mod Strays
pub mod Active
pub mod Values
use on_watch.Base.{
  ℕ, zero, suc, ◌+◌, Bool, true, false, not, ◌||◌, Option, none, some, List, [], ◌∷◌, ◌++◌, map,
  String, ltb, ◌==◌, if◌then◌else◌, length, count,
}
use on_watch.Float.{Float64}
use text.Mathlib.Text.{◌==◌ as str_eq}

pub record Session (F : Type 0) : Type 0 where
  pub id : String
  pub started_at : ℕ
  pub ended_at : Option ℕ
  pub poll_interval : ℕ
  pub provider : String
  pub start_sub_requests : F
  pub start_search_requests : F
  pub start_tool_requests : F
  pub max_sub_requests : F
  pub max_search_requests : F
  pub max_tool_requests : F
  pub snapshot_count : ℕ

-- The table, and the statements that are still to come: `true` is one that fails. With none left
-- only a key that is taken makes one fail.
pub record SessionDb (F : Type 0) : Type 0 where
  pub sessions : List (Session F)
  pub faults : List Bool

abbrev pub next_fault : List Bool → Bool
next_fault [] = false
next_fault (b ∷ bs) = b

abbrev pub other_faults : List Bool → List Bool
other_faults [] = []
other_faults (b ∷ bs) = bs

module _ {F : Type 0} where
  abbrev pub has_session : String → List (Session F) → Bool
  has_session id [] = false
  has_session id (r ∷ rs) = str_eq r.id id || has_session id rs

  -- `UPDATE sessions SET … WHERE id = ?`
  abbrev pub update_session : (Session F → Session F) → String → SessionDb F → Bool × SessionDb F
  update_session change id db =
      let rest = record db { faults = other_faults db.faults } in
      if next_fault db.faults then (false, rest) else (
        true,
        record rest { sessions = map (λ r. if str_eq r.id id then change r else r) db.sessions },
      )

  unfoldable pub close_session_row : String → ℕ → SessionDb F → Bool × SessionDb F
  close_session_row id ended_at = update_session (λ r. record r { ended_at = some ended_at }) id

  abbrev pub is_open : Session F → Bool
  is_open r = elim r.ended_at [ none ↦ true | some _ ↦ false ]

  -- `WHERE ended_at IS NULL`; the result is the number of rows.
  unfoldable pub close_orphaned_sessions : ℕ → SessionDb F → Option ℕ × SessionDb F
  close_orphaned_sessions now db =
      let rest = record db { faults = other_faults db.faults } in
      if next_fault db.faults then (none, rest) else (
        some (count is_open db.sessions),
        record rest {
          sessions =
              map (λ r. if is_open r then record r { ended_at = some now } else r) db.sessions;
        },
      )

  unfoldable pub increment_snapshot_count : String → SessionDb F → Bool × SessionDb F
  increment_snapshot_count id =
      update_session (λ r. record r { snapshot_count = suc r.snapshot_count }) id

module _ {F : Type 0} ⦃fl : Float64 F⦄ where
  -- The value at an index, or 0 for a shorter list.
  abbrev pub value_at : ℕ → List F → F
  value_at n [] = fl.zero
  value_at zero (v ∷ vs) = v
  value_at (suc n) (v ∷ vs) = value_at n vs

  abbrev pub new_session : String → ℕ → ℕ → String → List F → Session F
  new_session id started_at poll_interval provider start_values = record {
    id = id;
    started_at = started_at;
    ended_at = none;
    poll_interval = poll_interval;
    provider = if str_eq provider "" then "synthetic" else provider;
    start_sub_requests = value_at 0 start_values;
    start_search_requests = value_at 1 start_values;
    start_tool_requests = value_at 2 start_values;
    max_sub_requests = fl.zero;
    max_search_requests = fl.zero;
    max_tool_requests = fl.zero;
    snapshot_count = 0;
  }

  -- `id` is the primary key.
  unfoldable pub create_session :
      String → ℕ → ℕ → String → List F → SessionDb F → Bool × SessionDb F
  create_session id started_at poll_interval provider start_values db =
      let rest = record db { faults = other_faults db.faults } in
      let row = new_session id started_at poll_interval provider start_values in
      if next_fault db.faults || has_session id db.sessions
      then (false, rest)
      else (true, record rest { sessions = db.sessions ++ row ∷ [] })

  -- `CASE WHEN max < ? THEN ? ELSE max END`
  abbrev pub higher : F → F → F
  higher top v = if fl.lt top v then v else top

  abbrev pub raise_maxima : F → F → F → Session F → Session F
  raise_maxima sub search tool r = record r {
    max_sub_requests = higher r.max_sub_requests sub;
    max_search_requests = higher r.max_search_requests search;
    max_tool_requests = higher r.max_tool_requests tool;
  }

  unfoldable pub update_session_max_requests : String → F → F → F → SessionDb F → Bool × SessionDb F
  update_session_max_requests id sub search tool = update_session (raise_maxima sub search tool) id

-- An empty `session_id` is no active session.
pub record SessionManager (F : Type 0) : Type 0 where
  pub store : SessionDb F
  pub provider : String
  pub idle_timeout : ℕ
  pub session_id : String
  pub last_activity_time : ℕ
  pub prev_values : List F
  pub has_prev : Bool

unfoldable pub new_session_manager : {F : Type 0} → SessionDb F → String → ℕ → SessionManager F
new_session_manager store provider idle_timeout = record {
  store = store;
  provider = provider;
  idle_timeout = idle_timeout;
  session_id = "";
  last_activity_time = 0;
  prev_values = [];
  has_prev = false;
}

-- The failure is logged only.
unfoldable pub close_session : {F : Type 0} → ℕ → SessionManager F → SessionManager F
unfolding close_session_row
close_session end_time m = record m {
  store = (close_session_row m.session_id end_time m.store).1;
  session_id = "";
}

unfoldable pub close : {F : Type 0} → ℕ → SessionManager F → SessionManager F
unfolding close_session
close now m = if str_eq m.session_id "" then m else close_session now m

module _ {F : Type 0} ⦃fl : Float64 F⦄ where
  -- The loop of `hasChanged`, over lists of one length.
  abbrev pub differs : List F → List F → Bool
  differs [] _ = false
  differs (v ∷ vs) [] = true
  differs (v ∷ vs) (p ∷ ps) = not (fl.eq v p) || differs vs ps

  unfoldable pub has_changed : List F → SessionManager F → Bool
  has_changed values m =
      if not m.has_prev
      then false
      else if not (length values == length m.prev_values)
      then true
      else differs values m.prev_values

  -- Both failures are logged only.
  unfoldable pub increment_and_update : List F → SessionManager F → SessionManager F
  unfolding increment_snapshot_count update_session_max_requests
  increment_and_update values m =
      let counted = (increment_snapshot_count m.session_id m.store).1 in
      record m {
        store =
            (update_session_max_requests m.session_id (value_at 0 values) (value_at 1 values)
              (value_at 2 values) counted).1;
      }

  -- The start of a session, from the values of the poll before.
  pub start_session : List F → List F → ℕ → String → SessionManager F → SessionManager F
  unfolding create_session increment_and_update
  start_session values old_prev now new_id m =
      let starts = value_at 0 old_prev ∷ value_at 1 old_prev ∷ value_at 2 old_prev ∷ [] in
      let (created, db) = create_session new_id now 0 m.provider starts m.store in
      let started = record m { store = db; session_id = new_id; last_activity_time = now } in
      if created then increment_and_update values started else record started { session_id = "" }

  pub on_change : List F → List F → ℕ → String → SessionManager F → SessionManager F
  unfolding start_session
  on_change values old_prev now new_id m =
      if str_eq m.session_id ""
      then start_session values old_prev now new_id m
      else increment_and_update values (record m { last_activity_time = now })

  -- `now.Sub(lastActivityTime) > idleTimeout`
  pub on_quiet : List F → ℕ → SessionManager F → SessionManager F
  unfolding close_session increment_and_update
  on_quiet values now m =
      if str_eq m.session_id ""
      then m
      else if ltb (m.last_activity_time + m.idle_timeout) now
      then close_session now m
      else increment_and_update values m

  unfoldable pub report_poll : List F → ℕ → String → SessionManager F → Bool × SessionManager F
  unfolding has_changed on_change on_quiet
  report_poll values now new_id m =
      let polled = record m { prev_values = values; has_prev = true } in
      if not m.has_prev
      then (false, polled)
      else if has_changed values m
      then (true, on_change values m.prev_values now new_id polled)
      else (false, on_quiet values now polled)
