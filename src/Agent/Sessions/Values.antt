-- ===== src/Agent/Sessions/Values.antt =====
-- The values that `ReportPoll` of internal/agent/session_manager.go leaves in the row of a session.
use text.Mathlib.Text.{◌==◌ as str_eq}
use text.Mathlib.TextEquality.{eq_iff}
use on_watch.Base.{
  ℕ, suc, ◌+◌, ◌≤◌, ◌<◌, ◌≡◌, ◌≢◌, ◌⊎◌, refl, ◌∙◌, true, false, not, ◌||◌, Option, none, some, List,
  [], ◌∷◌, ◌++◌, map, String, if◌then◌else◌, arith, Bool-cases, inl, inr, ltb, sym, ap, if_true,
  if_false,
}
use on_watch.Float.{Float64}
use on_watch.Agent.Sessions.{
  Session, SessionDb, new_session, raise_maxima, create_session, value_at, SessionManager,
  close_session, increment_and_update, start_session, on_change, on_quiet, report_poll, has_changed,
  has_session, next_fault, other_faults,
}

module _ {F : Type 0} where
  abbrev pub find_session : String → List (Session F) → Option (Session F)
  find_session id [] = none
  find_session id (r ∷ rs) = if str_eq r.id id then some r else find_session id rs

  find_session-update :
      (id : String) (change : Session F → Session F) (r : Session F) (rs : List (Session F))
      → ((s : Session F) → (change s).id ≡ s.id)
      → find_session id rs ≡ some r
      → find_session id (map (λ s. if str_eq s.id id then change s else s) rs) ≡ some (change r)
  find_session-update id change r [] same h = ground arith
  find_session-update id change r (s ∷ rs) same h =
      ground (arith, same s, find_session-update id change r rs same)

  find_session-new :
      (id : String) (row : Session F) (rs : List (Session F))
      → row.id ≡ id
      → has_session id rs ≡ false
      → find_session id (rs ++ row ∷ []) ≡ some row
  find_session-new id row [] e h = ground (arith, eq_iff row.id id)
  find_session-new id row (s ∷ rs) e h = ground (arith, find_session-new id row rs e)

  -- The row of the active session.
  abbrev pub current : SessionManager F → Option (Session F)
  current m = find_session m.session_id m.store.sessions

module _ {F : Type 0} ⦃fl : Float64 F⦄ where
  -- A row after one more poll.
  abbrev pub counted : List F → Session F → Session F
  counted values r =
      raise_maxima (value_at 0 values) (value_at 1 values) (value_at 2 values)
        (record r { snapshot_count = suc r.snapshot_count })

  increment_and_update-current :
      (values : List F) (m : SessionManager F) (r : Session F)
      → m.store.faults ≡ []
      → current m ≡ some r
      → current (increment_and_update values m) ≡ some (counted values r)
  unfolding increment_and_update
  increment_and_update-current values m r faultless found = ground (
    arith,
    find_session-update m.session_id
        (raise_maxima (value_at 0 values) (value_at 1 values) (value_at 2 values))
        (record r { snapshot_count = suc r.snapshot_count })
        (map
          (λ s.
            if str_eq s.id m.session_id
            then record s { snapshot_count = suc s.snapshot_count }
            else s)
          m.store.sessions)
        (λ s. refl)
        (find_session-update m.session_id (λ s. record s { snapshot_count = suc s.snapshot_count })
          r m.store.sessions (λ s. refl) found),
  )

  -- The manager when a poll has stored its values.
  abbrev polled : List F → SessionManager F → SessionManager F
  polled values m = record m { prev_values = values; has_prev = true }

  report_poll-changed :
      (values : List F) (now : ℕ) (new_id : String) (m : SessionManager F)
      → m.has_prev ≡ true
      → has_changed values m ≡ true
      → report_poll values now new_id m
        ≡ (true, on_change values m.prev_values now new_id (polled values m))
  unfolding report_poll
  report_poll-changed values now new_id m later changed =
      if_false (not m.has_prev) _ _ (ground arith) ∙ if_true (has_changed values m) _ _ changed

  report_poll-quiet :
      (values : List F) (now : ℕ) (new_id : String) (m : SessionManager F)
      → m.has_prev ≡ true
      → has_changed values m ≡ false
      → report_poll values now new_id m ≡ (false, on_quiet values now (polled values m))
  unfolding report_poll
  report_poll-quiet values now new_id m later quiet =
      if_false (not m.has_prev) _ _ (ground arith) ∙ if_false (has_changed values m) _ _ quiet

  on_change-active :
      (values old_prev : List F) (now : ℕ) (new_id : String) (m : SessionManager F)
      → m.session_id ≢ ""
      → on_change values old_prev now new_id m
        ≡ increment_and_update values (record m { last_activity_time = now })
  unfolding on_change
  on_change-active values old_prev now new_id m named =
      if_false (str_eq m.session_id "") _ _ (ground (arith, eq_iff m.session_id ""))

  on_quiet-active :
      (values : List F) (now : ℕ) (m : SessionManager F)
      → m.session_id ≢ ""
      → now ≤ m.last_activity_time + m.idle_timeout
      → on_quiet values now m ≡ increment_and_update values m
  unfolding on_quiet
  on_quiet-active values now m named early =
      if_false (str_eq m.session_id "") _ _ (ground (arith, eq_iff m.session_id ""))
      ∙ if_false (ltb (m.last_activity_time + m.idle_timeout) now) _ _ (ground arith)

  increment_and_update-time :
      (values : List F) (m : SessionManager F)
      → (increment_and_update values m).last_activity_time ≡ m.last_activity_time
  unfolding increment_and_update
  increment_and_update-time values m = refl

  -- A poll of an active session that changes the values, or comes before the idle timeout is
  -- over, is counted in the row of the session and raises its maxima, if no statement fails. Only
  -- a change sets the time of the last activity.
  pub report_poll-counts :
      (values : List F) (now : ℕ) (new_id : String) (m : SessionManager F) (r : Session F)
      → m.store.faults ≡ []
      → m.has_prev ≡ true
      → m.session_id ≢ ""
      → current m ≡ some r
      → (has_changed values m ≡ true) ⊎ (now ≤ m.last_activity_time + m.idle_timeout)
      → (current (report_poll values now new_id m).1 ≡ some (counted values r))
        × ((report_poll values now new_id m).1.last_activity_time
            ≡ (if has_changed values m then now else m.last_activity_time))
  report_poll-counts values now new_id m r faultless later named found kept =
      elim (Bool-cases (has_changed values m)) [
        | inl changed ↦ rw (report_poll-changed values now new_id m later changed) (
            rw (on_change-active values m.prev_values now new_id (polled values m) named) (
              increment_and_update-current values _ r faultless found,
              increment_and_update-time values _ ∙ sym (if_true _ _ _ changed),
            ))
        | inr quiet ↦ rw (report_poll-quiet values now new_id m later quiet) (
            rw (on_quiet-active values now (polled values m) named (ground arith)) (
              increment_and_update-current values _ r faultless found,
              increment_and_update-time values _ ∙ sym (if_false _ _ _ quiet),
            ))
      ]

  create_session-free :
      (id provider : String) (now : ℕ) (starts : List F) (db : SessionDb F)
      → db.faults ≡ []
      → has_session id db.sessions ≡ false
      → create_session id now 0 provider starts db ≡ (
        true,
        record {
          sessions = db.sessions ++ new_session id now 0 provider starts ∷ [];
          faults = other_faults db.faults;
        },
      )
  unfolding create_session
  create_session-free id provider now starts db faultless free =
      if_false (next_fault db.faults || has_session id db.sessions) _ _ (ground arith)

  start_session-current :
      (values old_prev : List F) (now : ℕ) (new_id : String) (m : SessionManager F)
      → m.store.faults ≡ []
      → has_session new_id m.store.sessions ≡ false
      → current (start_session values old_prev now new_id m)
        ≡ some (counted values (new_session new_id now 0 m.provider old_prev))
  unfolding start_session
  start_session-current values old_prev now new_id m faultless free =
      let starts = value_at 0 old_prev ∷ value_at 1 old_prev ∷ value_at 2 old_prev ∷ [] in
      let made = create_session-free new_id m.provider now starts m.store faultless free in
      let row = new_session new_id now 0 m.provider starts in
      let started = record m {
        store = record {
          sessions = m.store.sessions ++ row ∷ [];
          faults = other_faults m.store.faults;
        };
        session_id = new_id;
        last_activity_time = now;
      } in
      rw made (
        increment_and_update-current values started row (ground (arith, faultless))
          (find_session-new new_id row m.store.sessions refl free))

  on_change-starts :
      (values old_prev : List F) (now : ℕ) (new_id : String) (m : SessionManager F)
      → m.store.faults ≡ []
      → m.session_id ≡ ""
      → has_session new_id m.store.sessions ≡ false
      → current (on_change values old_prev now new_id m)
        ≡ some (counted values (new_session new_id now 0 m.provider old_prev))
  unfolding on_change
  on_change-starts values old_prev now new_id m faultless idle free =
      ap current (if_true (str_eq m.session_id "") _ _ (ground (arith, eq_iff m.session_id "")))
      ∙ start_session-current values old_prev now new_id m faultless free

  -- A change without an active session starts one, if no statement fails and the identifier is
  -- not taken: its start values are those of the poll before, and this poll is counted.
  pub report_poll-starts :
      (values : List F) (now : ℕ) (new_id : String) (m : SessionManager F)
      → m.store.faults ≡ []
      → m.has_prev ≡ true
      → m.session_id ≡ ""
      → has_changed values m ≡ true
      → has_session new_id m.store.sessions ≡ false
      → current (report_poll values now new_id m).1
        ≡ some (counted values (new_session new_id now 0 m.provider m.prev_values))
  report_poll-starts values now new_id m faultless later idle changed free =
      rw (report_poll-changed values now new_id m later changed)
        (on_change-starts values m.prev_values now new_id (polled values m) faultless idle free)

  close_session-row :
      (end : ℕ) (m : SessionManager F) (r : Session F)
      → m.store.faults ≡ []
      → current m ≡ some r
      → find_session m.session_id (close_session end m).store.sessions
        ≡ some (record r { ended_at = some end })
  unfolding close_session
  close_session-row end m r faultless found = ground (
    arith,
    find_session-update m.session_id (λ s. record s { ended_at = some end }) r m.store.sessions
        (λ s. refl) found,
  )

  close_session-id : (end : ℕ) (m : SessionManager F) → (close_session end m).session_id ≡ ""
  unfolding close_session
  close_session-id end m = refl

  on_quiet-late :
      (values : List F) (now : ℕ) (m : SessionManager F)
      → m.session_id ≢ ""
      → m.last_activity_time + m.idle_timeout < now
      → on_quiet values now m ≡ close_session now m
  unfolding on_quiet
  on_quiet-late values now m named late =
      if_false (str_eq m.session_id "") _ _ (ground (arith, eq_iff m.session_id ""))
      ∙ if_true (ltb (m.last_activity_time + m.idle_timeout) now) _ _ (ground arith)

  -- A poll without a change, later than the idle timeout after the last one, ends the session at
  -- the time of the poll and is not counted in it, if no statement fails.
  pub report_poll-ends :
      (values : List F) (now : ℕ) (new_id : String) (m : SessionManager F) (r : Session F)
      → m.store.faults ≡ []
      → m.has_prev ≡ true
      → m.session_id ≢ ""
      → current m ≡ some r
      → has_changed values m ≡ false
      → m.last_activity_time + m.idle_timeout < now
      → let m' = (report_poll values now new_id m).1 in
        (m'.session_id ≡ "")
        × (find_session m.session_id m'.store.sessions ≡ some (record r { ended_at = some now }))
  report_poll-ends values now new_id m r faultless later named found quiet late =
      rw (report_poll-quiet values now new_id m later quiet) (
        rw (on_quiet-late values now (polled values m) named late) (
          close_session-id now (polled values m),
          close_session-row now (polled values m) r faultless found,
        ))
