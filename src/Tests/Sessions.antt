-- ===== src/Tests/Sessions.antt =====
-- `SessionStore` of internal/web/middleware.go at concrete tokens.
use text.Mathlib.Text.{◌==◌ as str_eq}
use text.Mathlib.TextEquality.{eq_iff}
use on_watch.Base.{
  ◌≢◌, ◌+◌, ◌≡◌, refl, true, false, some, [], ◌∷◌, String, leb, arith, if◌then◌else◌,
}
use on_watch.Auth.Tokens.{
  Crypto, AuthDb, SessionStore, session_max_age, authenticate, new_session_store, validate_token,
  invalidate, invalidate_all,
}
use on_watch.Auth.Tokens.Lifetime.{
  is_good, validate_token-eq-good, authenticate-validate, restart-validate,
}
use on_watch.Auth.Tokens.Revocation.{
  invalidate-good, invalidate_all-validate, invalidate_all_failed,
}

-- The stored hash is the password itself.
abbrev plain : Crypto
plain = record { check_bcrypt = str_eq; sha256_hex = λ s. s }

abbrev two_tokens : AuthDb
two_tokens = record { auth_tokens = ("t1", 100) ∷ ("t2", 50) ∷ []; faults = [] }

abbrev failing : AuthDb
failing = record { auth_tokens = ("t1", 100) ∷ []; faults = true ∷ false ∷ [] }

abbrev session_on : AuthDb → SessionStore
session_on db = record {
  tokens = ("t2", 50) ∷ [];
  username = "admin";
  password_hash = "secret";
  store = some db;
}

abbrev session : SessionStore
session = session_on two_tokens

abbrev new_token : String
new_token = "t3"

named : new_token ≢ ""
named = ground (arith, eq_iff new_token "")

authenticate-validate_example :
    (validate_token "t3" 20 (authenticate plain "admin" "secret" "t3" 10 session).1).0
    ≡ leb 20 (10 + session_max_age)
authenticate-validate_example =
    authenticate-validate plain "admin" "secret" "t3" 10 20 session named
      (unfold authenticate in refl)

validate_token-eq-good_example : (validate_token "t1" 60 session).0 ≡ is_good "t1" 60 session
validate_token-eq-good_example = validate_token-eq-good "t1" 60 session refl

restart-validate_example :
    (validate_token "t3" 20 (
      new_session_store "admin" "secret"
        (λ _. false)
        (authenticate plain "admin" "secret" "t3" 10 session).1.store)).0
    ≡ leb 20 (10 + session_max_age)
unfolding authenticate
restart-validate_example =
    restart-validate plain "admin" "secret" "t3" 10 20 (λ _. false) two_tokens session named refl
      refl refl refl

invalidate-good_example :
    is_good "t2" 20 (invalidate "t1" session)
    ≡ (if str_eq "t1" "t2" then false else is_good "t2" 20 session)
invalidate-good_example = invalidate-good "t1" "t2" 20 session refl

invalidate_all-validate_example : (validate_token "t1" 20 (invalidate_all session)).0 ≡ false
invalidate_all-validate_example = invalidate_all-validate "t1" 20 session refl

invalidate_all_failed_example :
    (validate_token "t1" 20 (invalidate_all (session_on failing))).0 ≡ true
invalidate_all_failed_example =
    invalidate_all_failed "t1" 20 100 [] failing (session_on failing)
      (ground (arith, eq_iff "t1" "")) refl refl refl (omega arith)
