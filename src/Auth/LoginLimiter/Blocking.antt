-- ===== src/Auth/LoginLimiter/Blocking.antt =====
-- What `LoginRateLimiter` of internal/web/middleware.go promises of a blocked IP.
use on_watch.Base.{
  ℕ, ◌+◌, ◌<◌, ◌≡◌, ◌∙◌, true, none, some, List, [], ◌∷◌, String, arith, Bool-cases, Option-cases,
  inl, inr, lookup, IsMap, string_eq,
}
use text.Mathlib.Text.{◌==◌ as str_eq}
use text.Mathlib.TextEquality.{eq_iff}
use on_watch.Auth.LoginLimiter.{
  block_duration, LoginAttempt, LoginRateLimiter, record_failure, is_blocked, evict_stale_entries,
}
use on_watch.Auth.LoginLimiter.Entries.{
  record_failure-own, record_failure-other, record_failure-IsMap, drop_stale-live, drop_stale-IsMap,
  is_blocked-other, is_blocked-IsMap,
}

-- The calls that reach a limiter between a block and its end, but for `Clear`.
pub data Call : Type 0 where
  fail : String → ℕ → ℕ → Call
  query : String → ℕ → Call
  sweep : ℕ → ℕ → Call

unfoldable pub serve : Call → LoginRateLimiter → LoginRateLimiter
serve (fail ip evict_time now) l = (record_failure ip evict_time now l).1
serve (query ip now) l = (is_blocked ip now l).1
serve (sweep max_age now) l = evict_stale_entries max_age now l

unfoldable pub serve_all : List Call → LoginRateLimiter → LoginRateLimiter
unfolding serve
serve_all [] l = l
serve_all (c ∷ cs) l = serve_all cs (serve c l)

-- Every clock reading of the calls is before a time.
abbrev pub IsBefore : ℕ → List Call → Type 0
IsBefore end [] = Unit
IsBefore end (fail _ evict_time now ∷ cs) = (evict_time < end) × (now < end) × IsBefore end cs
IsBefore end (query _ now ∷ cs) = (now < end) × IsBefore end cs
IsBefore end (sweep _ now ∷ cs) = (now < end) × IsBefore end cs

-- When the IP was blocked, or 0.
abbrev pub blocked_at_of : String → LoginRateLimiter → ℕ
blocked_at_of ip l = elim (lookup ip l.attempts) [ none ↦ 0 | some entry ↦ entry.blocked_at ]

entry_of_block :
    (j : String) (b : ℕ) (l : LoginRateLimiter)
    → 0 < b
    → blocked_at_of j l ≡ b
    → (entry : LoginAttempt) × (lookup j l.attempts ≡ some entry) × (entry.blocked_at ≡ b)
entry_of_block j b l pos h = elim (Option-cases (lookup j l.attempts)) [
  | inl fresh ↦ absurd (ground arith)
  | inr (entry, known) ↦ (entry, known, ground arith)
]

-- A failure of the blocked IP itself leaves `blockedAt` as it is.
fail-keeps :
    (ip j : String) (et now : ℕ) (entry : LoginAttempt) (l : LoginRateLimiter)
    → IsMap l.attempts
    → lookup j l.attempts ≡ some entry
    → 0 < entry.blocked_at
    → et < entry.blocked_at + block_duration
    → blocked_at_of j (record_failure ip et now l).1 ≡ entry.blocked_at
fail-keeps ip j et now entry l m h pos early = elim (Bool-cases (str_eq ip j)) [
  | inl same ↦ ground (arith, eq_iff ip j, record_failure-own j et now entry l h)
  | inr ne ↦ ground (arith, record_failure-other ip j et now entry l ne m h)
]

serve-keeps :
    (c : Call) (cs : List Call) (j : String) (b : ℕ) (l : LoginRateLimiter)
    → IsMap l.attempts
    → 0 < b
    → blocked_at_of j l ≡ b
    → IsBefore (b + block_duration) (c ∷ cs)
    → IsMap (serve c l).attempts
      × (blocked_at_of j (serve c l) ≡ b)
      × IsBefore (b + block_duration) cs
unfolding serve evict_stale_entries
serve-keeps (fail ip et now) cs j b l m pos h before =
    let (entry, known, at) = entry_of_block j b l pos h in
    (
      record_failure-IsMap ip et now l m,
      fail-keeps ip j et now entry l m known (omega arith) (omega arith) ∙ at,
      before.2,
    )
serve-keeps (query ip now) cs j b l m pos h before =
    let (entry, known, at) = entry_of_block j b l pos h in
    (is_blocked-IsMap ip now l m, ground (arith, is_blocked-other ip j now entry l known), before.1)
serve-keeps (sweep max_age now) cs j b l m pos h before =
    let (entry, known, at) = entry_of_block j b l pos h in
    (
      drop_stale-IsMap max_age now l.attempts m,
      ground (arith, drop_stale-live max_age now j entry l.attempts known),
      before.1,
    )

-- While an IP is blocked, nothing but `Clear` lifts the block before its five minutes are over:
-- neither failures of any IP, with the evictions that they cause, nor queries, nor sweeps.
pub serve_all-keeps_block :
    (cs : List Call) (j : String) (b now : ℕ) (l : LoginRateLimiter)
    → IsMap l.attempts
    → 0 < b
    → blocked_at_of j l ≡ b
    → IsBefore (b + block_duration) cs
    → now < b + block_duration
    → (is_blocked j now (serve_all cs l)).0 ≡ true
unfolding serve_all is_blocked
serve_all-keeps_block [] j b now l m pos h before early = ground arith
serve_all-keeps_block (c ∷ cs) j b now l m pos h before early =
    let (m', h', before') = serve-keeps c cs j b l m pos h before in
    serve_all-keeps_block cs j b now (serve c l) m' pos h' before' early
