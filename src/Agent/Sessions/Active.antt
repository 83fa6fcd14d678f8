-- ===== src/Agent/Sessions/Active.antt =====
-- Which sessions `SessionManager` of internal/agent/session_manager.go leaves open.
use mathlib.Core.Path.{subst}
use text.Mathlib.Text.{◌==◌ as str_eq}
use text.Mathlib.TextEquality.{eq_iff}
use on_watch.Base.{
  ℕ, ◌≡◌, refl, ◌∙◌, ◌&&◌, some, List, [], ◌∷◌, String, if◌then◌else◌, arith, count-map_le,
  count_le, Bool-cases, inl, inr,
}
use on_watch.Float.{Float64}
use on_watch.Agent.Sessions.{
  SessionDb, is_open, SessionManager, close_session, close, report_poll, new_session_manager,
}
use on_watch.Agent.Sessions.Strays.{
  stored_provider, is_stray, IsWatched, Poll, AreNamed, open_of, report_poll-IsWatched,
}

module _ {F : Type 0} ⦃fl : Float64 F⦄ where
  unfoldable pub run_polls : List (Poll F) → SessionManager F → SessionManager F
  unfolding report_poll
  run_polls [] m = m
  run_polls ((values, now, new_id) ∷ rest) m = run_polls rest (report_poll values now new_id m).1

  run_polls-IsWatched :
      (polls : List (Poll F)) (m : SessionManager F)
      → AreNamed polls
      → IsWatched m
      → IsWatched (run_polls polls m)
  unfolding run_polls
  run_polls-IsWatched [] m named w = w
  run_polls-IsWatched ((values, now, new_id) ∷ rest) m named w =
      run_polls-IsWatched rest (report_poll values now new_id m).1 named.1
        (report_poll-IsWatched values now new_id m named.0 w)

  watched-close :
      (now : ℕ) (m : SessionManager F) → IsWatched m → open_of m.provider (close now m).store ≡ 0
  unfolding close close_session
  watched-close now m w = elim (Bool-cases (str_eq m.session_id "")) [
    | inl idle ↦ ground (
      arith,
      w.watched,
      count_le (λ r. is_open r && str_eq r.provider (stored_provider m.provider))
          (is_stray m.provider m.session_id) m.store.sessions
          (λ r h. ground (arith, idle, eq_iff m.session_id "")),
    )
    | inr active ↦ ground (
      arith,
      w.faultless,
      w.watched,
      count-map_le (λ r. is_open r && str_eq r.provider (stored_provider m.provider))
          (is_stray m.provider m.session_id)
          (λ r. if str_eq r.id m.session_id then record r { ended_at = some now } else r)
          m.store.sessions (λ r h. ground arith),
    )
  ]

  run_polls-provider :
      (polls : List (Poll F)) (m : SessionManager F) → (run_polls polls m).provider ≡ m.provider
  unfolding run_polls
  run_polls-provider [] m = refl
  run_polls-provider ((values, now, new_id) ∷ rest) m =
      run_polls-provider rest (report_poll values now new_id m).1
      ∙ unfold report_poll in ground arith

  -- A manager that starts over a table with no open session of its provider, and is closed after
  -- any polls, leaves no session of its provider open, if no statement fails and the generated
  -- identifiers are not empty.
  pub run_polls-close :
      (polls : List (Poll F)) (db : SessionDb F) (provider : String) (idle_timeout now : ℕ)
      → AreNamed polls
      → db.faults ≡ []
      → open_of provider db ≡ 0
      → open_of provider
          (close now (run_polls polls (new_session_manager db provider idle_timeout))).store
        ≡ 0
  unfolding new_session_manager
  run_polls-close polls db provider idle_timeout now named faultless none_open =
      let m = new_session_manager db provider idle_timeout in
      let w : IsWatched m = record {
        faultless = faultless;
        watched = ground (
          arith,
          none_open,
          count_le (is_stray provider "")
              (λ r. is_open r && str_eq r.provider (stored_provider provider)) db.sessions
              (λ r h. ground arith),
        );
      } in
      subst (λ p. open_of p (close now (run_polls polls m)).store ≡ 0) (run_polls-provider polls m)
        (watched-close now (run_polls polls m) (run_polls-IsWatched polls m named w))
