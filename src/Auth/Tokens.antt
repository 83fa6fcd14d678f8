-- ===== src/Auth/Tokens.antt =====
-- `SessionStore` of internal/web/middleware.go and the `auth_tokens` table that it writes
-- (internal/store/store.go). Times are nanoseconds; each method is given its clock reading. The
-- generated token is an argument. A method runs to its end before the next one begins.
-- bcrypt and SHA-256 are outside the repository: they are the parameter `Crypto`.
pub mod Lifetime
pub mod Revocation
use Prim.Native.String.{len}
use Prim.Native.Char.{code}
use text.Mathlib.Text.{◌==◌ as str_eq}
use on_watch.Base.{
  ℕ, ◌+◌, ◌*◌, ◌^◌, Bool, true, false, not, ◌&&◌, ◌||◌, Option, none, some, List, [], ◌∷◌, String,
  ltb, leb, ◌==◌, if◌then◌else◌, Dict, lookup, insert, erase, string_eq,
}

pub record Crypto : Type 0 where
  -- `bcrypt.CompareHashAndPassword` succeeds on this hash and password.
  pub check_bcrypt : String → String → Bool
  -- The hex digest `legacyHashPassword`.
  pub sha256_hex : String → String

-- The table by its primary key, and the calls of the database that are still to come: `true` is
-- one that fails. With none left every call succeeds.
pub record AuthDb : Type 0 where
  pub auth_tokens : Dict String ℕ
  pub faults : List Bool

-- One statement: it fails and changes nothing, or applies its change.
abbrev pub exec : (Dict String ℕ → Dict String ℕ) → AuthDb → Bool × AuthDb
exec change db = elim db.faults [
  | [] ↦ (true, record db { auth_tokens = change db.auth_tokens })
  | ◌∷◌ failed rest ↦
      if failed
      then (false, record db { faults = rest })
      else (true, record { auth_tokens = change db.auth_tokens; faults = rest })
]

-- `INSERT OR REPLACE`
abbrev pub save_auth_token : String → ℕ → AuthDb → Bool × AuthDb
save_auth_token token expires_at = exec (insert token expires_at)

abbrev pub delete_auth_token : String → AuthDb → Bool × AuthDb
delete_auth_token token = exec (erase token)

abbrev pub delete_all_auth_tokens : AuthDb → Bool × AuthDb
delete_all_auth_tokens = exec (λ _. [])

-- The expiry, or `none` where the token is not found or the query fails.
abbrev pub get_auth_token_expiry : String → AuthDb → Option ℕ × AuthDb
get_auth_token_expiry token db =
    let (done, db') = exec (λ d. d) db in (if done then lookup token db.auth_tokens else none, db')

abbrev drop_before : (ℕ → Bool) → Dict String ℕ → Dict String ℕ
drop_before is_past [] = []
drop_before is_past ((token, expires_at) ∷ rest) =
    let kept = drop_before is_past rest in
    if is_past expires_at then kept else (token, expires_at) ∷ kept

-- The statement compares formatted times as texts: `is_past` is that comparison with the clock.
abbrev pub clean_expired_auth_tokens : (ℕ → Bool) → AuthDb → Bool × AuthDb
clean_expired_auth_tokens is_past = exec (drop_before is_past)

-- The limiter is a component of its own.
pub record SessionStore : Type 0 where
  pub tokens : Dict String ℕ
  pub username : String
  pub password_hash : String
  pub store : Option AuthDb

-- 7 days.
abbrev pub session_max_age : ℕ
session_max_age = 7 * 24 * 3600 * 10 ^ 9

abbrev pub on_store : (AuthDb → Bool × AuthDb) → SessionStore → SessionStore
on_store call s = elim s.store [ none ↦ s | some db ↦ record s { store = some (call db).1 } ]

unfoldable pub new_session_store : String → String → (ℕ → Bool) → Option AuthDb → SessionStore
new_session_store username password_hash is_past store =
    on_store (clean_expired_auth_tokens is_past)
      (record { tokens = []; username = username; password_hash = password_hash; store = store })

is_hex : ℕ → Bool
is_hex c = leb b'0' c && leb c b'9' || (leb b'a' c && leb c b'f') || (leb b'A' c && leb c b'F')

all_hex : String → Bool
unfolding is_hex
all_hex String.[] = true
all_hex (String.◌∷◌ c s) = is_hex (code c) && all_hex s

unfoldable pub is_legacy_hash : String → Bool
unfolding all_hex
is_legacy_hash hash = len hash == 64 && all_hex hash

module _ (crypto : Crypto) where
  unfoldable pub check_credentials : String → String → SessionStore → Bool
  unfolding is_legacy_hash
  check_credentials username password s =
      str_eq username s.username
      && (if is_legacy_hash s.password_hash
          then str_eq (crypto.sha256_hex password) s.password_hash
          else crypto.check_bcrypt s.password_hash password)

  -- `token` is what `generateToken` returns. The result of saving it is not looked at.
  unfoldable pub authenticate :
      String → String → String → ℕ → SessionStore → Option String × SessionStore
  unfolding check_credentials
  authenticate username password token now s =
      if not (check_credentials username password s) then (none, s) else (
        some token,
        on_store (save_auth_token token (now + session_max_age))
            (record s { tokens = insert token (now + session_max_age) s.tokens }),
      )

abbrev validate_stored : String → ℕ → AuthDb → SessionStore → Bool × SessionStore
validate_stored token now db s =
    let (found, db') = get_auth_token_expiry token db in
    elim found [
      | none ↦ (false, record s { store = some db' })
      | some expiry ↦
          if ltb expiry now
          then (false, record s { store = some (delete_auth_token token db').1 })
          else (true, record s { tokens = insert token expiry s.tokens; store = some db' })
    ]

unfoldable pub validate_token : String → ℕ → SessionStore → Bool × SessionStore
validate_token token now s = if str_eq token "" then (false, s) else elim (lookup token s.tokens) [
  | some expiry ↦
      if ltb expiry now
      then (false, on_store (delete_auth_token token) (record s { tokens = erase token s.tokens }))
      else (true, s)
  | none ↦ elim s.store [ none ↦ (false, s) | some db ↦ validate_stored token now db s ]
]

abbrev pub invalidate : String → SessionStore → SessionStore
invalidate token s = on_store (delete_auth_token token) (record s { tokens = erase token s.tokens })

unfoldable pub update_password : String → SessionStore → SessionStore
update_password new_hash s = record s { password_hash = new_hash }

unfoldable pub invalidate_all : SessionStore → SessionStore
invalidate_all s = on_store delete_all_auth_tokens (record s { tokens = [] })

-- The loop, over the tokens that the map held when it began.
pub evict_loop : ℕ → Dict String ℕ → SessionStore → SessionStore
evict_loop now [] s = s
evict_loop now ((token, expiry) ∷ rest) s =
    evict_loop now rest (if ltb expiry now then invalidate token s else s)

unfoldable pub evict_expired_tokens : ℕ → SessionStore → SessionStore
unfolding evict_loop
evict_expired_tokens now s = evict_loop now s.tokens s
