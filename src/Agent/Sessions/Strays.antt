-- ===== src/Agent/Sessions/Strays.antt =====
-- The open sessions that a `SessionManager` (internal/agent/session_manager.go) does not know.
use text.Mathlib.Text.{◌==◌ as str_eq}
use text.Mathlib.TextEquality.{eq_iff}
use on_watch.Base.{
  ℕ, suc, if_holds, ◌≡◌, ◌≢◌, refl, Bool, true, false, not, ◌&&◌, ◌||◌, some, List, [], ◌∷◌, String,
  if◌then◌else◌, arith, count, count-append, count-map_le, count_le,
}
use on_watch.Float.{Float64}
use on_watch.Agent.Sessions.{
  Session, SessionDb, is_open, new_session, raise_maxima, create_session, value_at, SessionManager,
  close_session, increment_and_update, start_session, on_change, on_quiet, report_poll, has_changed,
  update_session,
}

-- The provider that a session is stored under.
abbrev pub stored_provider : String → String
stored_provider provider = if str_eq provider "" then "synthetic" else provider

-- An open session of a provider other than the one with this identifier.
abbrev pub is_stray : {F : Type 0} → String → String → Session F → Bool
is_stray provider id r =
    is_open r
    && str_eq r.provider (stored_provider provider)
    && (not (str_eq r.id id) || str_eq id "")

abbrev pub strays : {F : Type 0} → SessionManager F → ℕ
strays m = count (is_stray m.provider m.session_id) m.store.sessions

-- No statement that is still to come fails, and no open session is one that the manager lost.
pub record IsWatched {F : Type 0} (m : SessionManager F) : Type 0 where
  pub faultless : m.store.faults ≡ []
  pub watched : strays m ≡ 0

-- A poll: its values, the clock and the identifier that it generates.
abbrev pub Poll : Type 0 → Type 0
Poll F = List F × ℕ × String

abbrev pub AreNamed : {F : Type 0} → List (Poll F) → Type 0
AreNamed [] = Unit
AreNamed ((_, _, new_id) ∷ rest) = (new_id ≢ "") × AreNamed rest

-- The open sessions of a provider.
abbrev pub open_of : {F : Type 0} → String → SessionDb F → ℕ
open_of provider db =
    count (λ r. is_open r && str_eq r.provider (stored_provider provider)) db.sessions

module _ {F : Type 0} where
  -- A statement on the rows of the active session leaves it the only one that is open.
  update-IsWatched :
      (change : Session F → Session F) (m : SessionManager F)
      → ((r : Session F)
          → ((change r).id ≡ r.id)
            × ((change r).provider ≡ r.provider)
            × ((change r).ended_at ≡ r.ended_at))
      → IsWatched m
      → IsWatched (record m { store = (update_session change m.session_id m.store).1 })
  update-IsWatched change m same w = record {
    faultless = ground (arith, w.faultless);
    watched = ground (
      arith,
      w.faultless,
      w.watched,
      count-map_le (is_stray m.provider m.session_id) (is_stray m.provider m.session_id)
          (λ r. if str_eq r.id m.session_id then change r else r) m.store.sessions
          (λ r h. ground (arith, same r)),
    );
  }

  close_session-IsWatched :
      (end : ℕ) (m : SessionManager F) → IsWatched m → IsWatched (close_session end m)
  unfolding close_session
  close_session-IsWatched end m w = record {
    faultless = ground (arith, w.faultless);
    watched = ground (
      arith,
      w.faultless,
      w.watched,
      count-map_le (is_stray m.provider "") (is_stray m.provider m.session_id)
          (λ r. if str_eq r.id m.session_id then record r { ended_at = some end } else r)
          m.store.sessions (λ r h. ground arith),
    );
  }

module _ {F : Type 0} ⦃fl : Float64 F⦄ where
  increment_and_update-IsWatched :
      (values : List F) (m : SessionManager F)
      → IsWatched m
      → IsWatched (increment_and_update values m)
  unfolding increment_and_update
  increment_and_update-IsWatched values m w =
      update-IsWatched (raise_maxima (value_at 0 values) (value_at 1 values) (value_at 2 values)) _
        (λ r. (refl, refl, refl))
        (update-IsWatched (λ r. record r { snapshot_count = suc r.snapshot_count }) m
          (λ r. (refl, refl, refl)) w)

  created-IsWatched :
      (starts : List F) (now : ℕ) (new_id : String) (m : SessionManager F)
      → new_id ≢ ""
      → m.session_id ≡ ""
      → (create_session new_id now 0 m.provider starts m.store).0 ≡ true
      → IsWatched m
      → IsWatched (record m {
        store = (create_session new_id now 0 m.provider starts m.store).1;
        session_id = new_id;
        last_activity_time = now;
      })
  unfolding create_session
  created-IsWatched starts now new_id m named idle done w = record {
    faultless = ground (arith, w.faultless);
    watched = ground (
      arith,
      w.faultless,
      w.watched,
      eq_iff new_id "",
      eq_iff new_id new_id,
      count-append (is_stray m.provider new_id) m.store.sessions
          (new_session new_id now 0 m.provider starts ∷ []),
      count_le (is_stray m.provider new_id) (is_stray m.provider m.session_id) m.store.sessions
          (λ r h. ground (arith, idle, eq_iff m.session_id "")),
    );
  }

  not_created-IsWatched :
      (starts : List F) (now : ℕ) (new_id : String) (m : SessionManager F)
      → m.session_id ≡ ""
      → (create_session new_id now 0 m.provider starts m.store).0 ≡ false
      → IsWatched m
      → IsWatched (record m {
        store = (create_session new_id now 0 m.provider starts m.store).1;
        session_id = "";
        last_activity_time = now;
      })
  unfolding create_session
  not_created-IsWatched starts now new_id m idle failed w = record {
    faultless = ground (arith, w.faultless);
    watched = ground (arith, w.faultless, w.watched);
  }

  start_session-IsWatched :
      (values old_prev : List F) (now : ℕ) (new_id : String) (m : SessionManager F)
      → new_id ≢ ""
      → m.session_id ≡ ""
      → IsWatched m
      → IsWatched (start_session values old_prev now new_id m)
  unfolding start_session
  start_session-IsWatched values old_prev now new_id m named idle w =
      let starts = value_at 0 old_prev ∷ value_at 1 old_prev ∷ value_at 2 old_prev ∷ [] in
      if_holds IsWatched (create_session new_id now 0 m.provider starts m.store).0 _ _
        (λ done.
          increment_and_update-IsWatched values _
            (created-IsWatched starts now new_id m named idle done w))
        (λ failed. not_created-IsWatched starts now new_id m idle failed w)

  on_change-IsWatched :
      (values old_prev : List F) (now : ℕ) (new_id : String) (m : SessionManager F)
      → new_id ≢ ""
      → IsWatched m
      → IsWatched (on_change values old_prev now new_id m)
  unfolding on_change
  on_change-IsWatched values old_prev now new_id m named w =
      if_holds IsWatched (str_eq m.session_id "") _ _
        (λ idle. start_session-IsWatched values old_prev now new_id m named ((eq_iff _ _).0 idle) w)
        (λ active.
          increment_and_update-IsWatched values _
            (record { faultless = w.faultless; watched = w.watched }))

  on_quiet-IsWatched :
      (values : List F) (now : ℕ) (m : SessionManager F)
      → IsWatched m
      → IsWatched (on_quiet values now m)
  unfolding on_quiet
  on_quiet-IsWatched values now m w =
      if_holds IsWatched (str_eq m.session_id "") _ _ (λ idle. w)
        (λ active.
          if_holds IsWatched _ _ _ (λ late. close_session-IsWatched now m w)
            (λ early. increment_and_update-IsWatched values m w))

  pub report_poll-IsWatched :
      (values : List F) (now : ℕ) (new_id : String) (m : SessionManager F)
      → new_id ≢ ""
      → IsWatched m
      → IsWatched (report_poll values now new_id m).1
  unfolding report_poll
  report_poll-IsWatched values now new_id m named w =
      let polled = record m { prev_values = values; has_prev = true } in
      let w' : IsWatched polled = record { faultless = w.faultless; watched = w.watched } in
      if_holds (λ (r : Bool × SessionManager F). IsWatched r.1) (not m.has_prev) _ _ (λ first. w')
        (λ later.
          if_holds (λ (r : Bool × SessionManager F). IsWatched r.1) (has_changed values m) _ _
            (λ changed. on_change-IsWatched values m.prev_values now new_id polled named w')
            (λ quiet. on_quiet-IsWatched values now polled w'))
