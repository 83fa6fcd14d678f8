-- ===== src/Auth/Tokens/Lifetime.antt =====
-- How long a token of `SessionStore` (internal/web/middleware.go) is accepted.
use text.Mathlib.Text.{◌==◌ as str_eq}
use text.Mathlib.TextEquality.{eq_iff}
use on_watch.Base.{
  ℕ, ◌+◌, ◌≤◌, ◌≡◌, ◌≢◌, ◌∙◌, refl, Bool, false, not, ◌&&◌, Option, none, some, [], ◌∷◌, String,
  ltb, leb, if◌then◌else◌, Dict, lookup, insert, string_eq, arith, lookup-insert, lookup-erase,
  Option-cases, inl, inr, beq_refl, lookup-insert_self, IsMap,
}
use on_watch.Auth.Tokens.{
  Crypto, AuthDb, SessionStore, session_max_age, authenticate, validate_token, invalidate,
  evict_loop, evict_expired_tokens, new_session_store, drop_before, validate_stored,
}

-- No call of the database that is still to come fails.
abbrev pub IsFaultless : SessionStore → Type 0
IsFaultless s = elim s.store [ none ↦ Unit {0} | some db ↦ db.faults ≡ [] ]

-- Until when a token is good: by the cache, or else by the table.
abbrev pub expiry_of : String → SessionStore → Option ℕ
expiry_of token s = elim (lookup token s.tokens) [
  | some expiry ↦ some expiry
  | none ↦ elim s.store [ none ↦ none | some db ↦ lookup token db.auth_tokens ]
]

-- The specification of an answer.
abbrev pub is_good : String → ℕ → SessionStore → Bool
is_good token now s =
    not (str_eq token "")
    && elim (expiry_of token s) [ none ↦ false | some expiry ↦ leb now expiry ]

-- With a database that does not fail, a token is accepted exactly until its expiry, by the cache
-- or else by the table.
pub validate_token-eq-good :
    (token : String) (now : ℕ) (s : SessionStore)
    → IsFaultless s
    → (validate_token token now s).0 ≡ is_good token now s
unfolding validate_token
validate_token-eq-good token now s h = ground arith

pub expiry_of-invalidate :
    (token j : String) (s : SessionStore)
    → IsFaultless s
    → expiry_of j (invalidate token s) ≡ (if str_eq token j then none else expiry_of j s)
expiry_of-invalidate token j s h = elim (Option-cases s.store) [
  | inl memory ↦ ground (arith, lookup-erase token j s.tokens)
  | inr (db, stored) ↦
      ground (arith, lookup-erase token j s.tokens, lookup-erase token j db.auth_tokens)
]

expiry_of-validate_stored :
    (token j : String) (now later : ℕ) (db : AuthDb) (s : SessionStore)
    → db.faults ≡ []
    → s.store ≡ some db
    → lookup token s.tokens ≡ none
    → now ≤ later
    → is_good j later (validate_stored token now db s).1 ≡ is_good j later s
expiry_of-validate_stored token j now later db s h stored absent after =
    elim (Option-cases (lookup token db.auth_tokens)) [
      | inl unknown ↦ ground arith
      | inr (expiry, known) ↦ ground (
        arith,
        eq_iff token j,
        lookup-insert token j expiry s.tokens,
        lookup-erase token j db.auth_tokens,
      )
    ]

-- Validating a token changes no answer, of any token, from then on.
pub validate_token-good :
    (token j : String) (now later : ℕ) (s : SessionStore)
    → IsFaultless s
    → now ≤ later
    → is_good j later (validate_token token now s).1 ≡ is_good j later s
unfolding validate_token
validate_token-good token j now later s h after = elim (Option-cases (lookup token s.tokens)) [
  | inl absent ↦ elim (Option-cases s.store) [
    | inl memory ↦ ground arith
    | inr (db, stored) ↦
        ground (
          arith,
          expiry_of-validate_stored token j now later db s (ground arith) stored absent after,
        )
  ]
  | inr (expiry, cached) ↦ ground (arith, eq_iff token j, expiry_of-invalidate token j s h)
]

-- A token that `Authenticate` has returned is accepted until seven days later and no longer,
-- whether or not the database took it.
pub authenticate-validate :
    (crypto : Crypto) (username password token : String) (now later : ℕ) (s : SessionStore)
    → token ≢ ""
    → (authenticate crypto username password token now s).0 ≡ some token
    → (validate_token token later (authenticate crypto username password token now s).1).0
      ≡ leb later (now + session_max_age)
unfolding authenticate validate_token
authenticate-validate crypto username password token now later s named done =
    ground (arith, eq_iff token "", lookup-insert_self token (now + session_max_age) s.tokens)

invalidate-IsFaultless :
    (token : String) (s : SessionStore) → IsFaultless s → IsFaultless (invalidate token s)
invalidate-IsFaultless token s h = ground arith

-- The loop sees only tokens that the store still knows, with their expiry.
evict_loop-good :
    (now later : ℕ) (j : String) (rest : Dict String ℕ) (s : SessionStore)
    → IsFaultless s
    → now ≤ later
    → IsMap rest
    → ((token : String) (expiry : ℕ)
        → lookup token rest ≡ some expiry
        → expiry_of token s ≡ some expiry)
    → is_good j later (evict_loop now rest s) ≡ is_good j later s
unfolding evict_loop
evict_loop-good now later j [] s h after m agree = refl
evict_loop-good now later j ((token, expiry) ∷ rest) s h after m agree =
    evict_loop-good now later j rest (if ltb expiry now then invalidate token s else s)
      (ground (arith, invalidate-IsFaultless token s h)) after m.1
      (λ k e known. ground (arith, eq_iff token k, expiry_of-invalidate token k s h, agree k e))
    ∙ ground (
      arith,
      eq_iff token j,
      expiry_of-invalidate token j s h,
      agree token expiry,
      beq_refl token,
    )

-- Evicting the expired tokens changes no answer, of any token, from then on.
pub evict_expired_tokens-good :
    (now later : ℕ) (j : String) (s : SessionStore)
    → IsFaultless s
    → now ≤ later
    → IsMap s.tokens
    → is_good j later (evict_expired_tokens now s) ≡ is_good j later s
unfolding evict_expired_tokens
evict_expired_tokens-good now later j s h after m =
    evict_loop-good now later j s.tokens s h after m (λ k e known. ground arith)

lookup-drop_before :
    (is_past : ℕ → Bool) (token : String) (expiry : ℕ) (d : Dict String ℕ)
    → lookup token d ≡ some expiry
    → is_past expiry ≡ false
    → lookup token (drop_before is_past d) ≡ some expiry
lookup-drop_before is_past token expiry [] known keep = cc
lookup-drop_before is_past token expiry ((k, e) ∷ d) known keep =
    ground (arith, lookup-drop_before is_past token expiry d)

-- A token outlives the daemon: what the table took from `Authenticate` is accepted by a new store
-- over that table, until the same expiry, if the clean-up at its start does not count it as past.
pub restart-validate :
    (crypto : Crypto) (username password token : String) (now later : ℕ) (is_past : ℕ → Bool)
    (db : AuthDb) (s : SessionStore)
    → token ≢ ""
    → s.store ≡ some db
    → db.faults ≡ []
    → is_past (now + session_max_age) ≡ false
    → (authenticate crypto username password token now s).0 ≡ some token
    → let s' = (authenticate crypto username password token now s).1 in
      (validate_token token later
        (new_session_store s'.username s'.password_hash is_past s'.store)).0
      ≡ leb later (now + session_max_age)
unfolding authenticate validate_token new_session_store
restart-validate crypto username password token now later is_past db s named stored h keep done =
    ground (
      arith,
      eq_iff token "",
      lookup-drop_before is_past token (now + session_max_age)
          (insert token (now + session_max_age) db.auth_tokens)
          (lookup-insert_self token (now + session_max_age) db.auth_tokens) keep,
    )
