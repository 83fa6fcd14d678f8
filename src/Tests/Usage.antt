-- ===== src/Tests/Usage.antt =====
-- `SessionManager` of internal/agent/session_manager.go at concrete polls.
use text.Mathlib.TextEquality.{eq_iff}
use on_watch.Base.{ℕ, ◌≡◌, ◌≢◌, refl, true, List, [], ◌∷◌, String, arith}
use on_watch.Agent.Sessions.{
  Session, SessionDb, SessionManager, new_session, new_session_manager, close,
}
use on_watch.Agent.Sessions.Strays.{Poll, open_of}
use on_watch.Agent.Sessions.Active.{run_polls, run_polls-close}
use on_watch.Tests.Floats.{whole}

abbrev empty_db : SessionDb ℕ
empty_db = record { sessions = []; faults = [] }

abbrev first_id : String
first_id = "s1"

named : first_id ≢ ""
named = ground (arith, eq_iff first_id "")

abbrev polls : List (Poll ℕ)
polls = (1 ∷ [], 10, first_id) ∷ (2 ∷ [], 20, first_id) ∷ []

run_polls-close_example :
    open_of "codex" (close 30 (run_polls polls (new_session_manager empty_db "codex" 600))).store
    ≡ 0
run_polls-close_example =
    run_polls-close polls empty_db "codex" 600 30 (named, (named, tt)) refl refl

abbrev idle : SessionManager ℕ
idle = record {
  store = empty_db;
  provider = "codex";
  idle_timeout = 600;
  session_id = "";
  last_activity_time = 0;
  prev_values = 1 ∷ [];
  has_prev = true;
}

abbrev row : Session ℕ
row = new_session first_id 20 0 "codex" (1 ∷ [])

abbrev busy : SessionManager ℕ
busy = record {
  store = record { sessions = row ∷ []; faults = [] };
  provider = "codex";
  idle_timeout = 600;
  session_id = first_id;
  last_activity_time = 20;
  prev_values = 2 ∷ [];
  has_prev = true;
}
