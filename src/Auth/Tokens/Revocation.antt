-- ===== src/Auth/Tokens/Revocation.antt =====
-- What `Invalidate` and `InvalidateAll` of internal/web/middleware.go take back.
use text.Mathlib.Text.{◌==◌ as str_eq}
use text.Mathlib.TextEquality.{eq_iff}
use on_watch.Base.{
  ℕ, ◌≤◌, ◌≡◌, ◌≢◌, Bool, true, false, some, List, ◌∷◌, String, if◌then◌else◌, lookup, string_eq,
  arith,
}
use on_watch.Auth.Tokens.{AuthDb, SessionStore, validate_token, invalidate, invalidate_all}
use on_watch.Auth.Tokens.Lifetime.{IsFaultless, expiry_of-invalidate, is_good}

-- Logging out takes the one token back at every later time, and changes no answer of another.
pub invalidate-good :
    (token j : String) (now : ℕ) (s : SessionStore)
    → IsFaultless s
    → is_good j now (invalidate token s) ≡ (if str_eq token j then false else is_good j now s)
invalidate-good token j now s h = ground (arith, expiry_of-invalidate token j s h)

-- After a change of the password no token is accepted, whatever was cached or stored before.
pub invalidate_all-validate :
    (token : String) (now : ℕ) (s : SessionStore)
    → IsFaultless s
    → (validate_token token now (invalidate_all s)).0 ≡ false
unfolding invalidate_all validate_token
invalidate_all-validate token now s h = ground arith

-- Where the database fails to delete, `InvalidateAll` takes nothing back that is stored: every
-- unexpired token of the table is accepted again.
pub invalidate_all_failed :
    (token : String) (now expiry : ℕ) (later : List Bool) (db : AuthDb) (s : SessionStore)
    → token ≢ ""
    → s.store ≡ some db
    → db.faults ≡ true ∷ false ∷ later
    → lookup token db.auth_tokens ≡ some expiry
    → now ≤ expiry
    → (validate_token token now (invalidate_all s)).0 ≡ true
unfolding invalidate_all validate_token
invalidate_all_failed token now expiry later db s named stored f known fresh =
    ground (arith, eq_iff token "")
