-- ===== src/Auth/LoginLimiter/Threshold.antt =====
-- An entry of `LoginRateLimiter` (internal/web/middleware.go) before and after its fifth failure.
use on_watch.Base.{ℕ, ◌+◌, ◌^◌, ◌≤◌, ◌<◌, ◌≡◌, some, String, leb, arith, lookup, string_eq}
use on_watch.Auth.LoginLimiter.{
  block_duration, LoginAttempt, LoginRateLimiter, record_on, is_blocked,
}

-- An entry as a run of recent failures leaves it.
pub record IsCounted (now : ℕ) (entry : LoginAttempt) : Type 0 where
  pub few : entry.failures < 5 → entry.blocked_at ≡ 0
  pub many : 5 ≤ entry.failures → (0 < entry.blocked_at) × (now < entry.blocked_at + block_duration)

pub record_on-IsCounted :
    (now t : ℕ) (entry : LoginAttempt)
    → 0 < t
    → now < t + block_duration
    → entry.failures + 1 < 2 ^ 31
    → IsCounted now entry
    → IsCounted now (record_on t entry)
record_on-IsCounted now t entry pos recent small c = ground (arith, c.few, c.many)

pub is_blocked-counted :
    (ip : String) (now : ℕ) (entry : LoginAttempt) (l : LoginRateLimiter)
    → lookup ip l.attempts ≡ some entry
    → IsCounted now entry
    → (is_blocked ip now l).0 ≡ leb 5 entry.failures
unfolding is_blocked
is_blocked-counted ip now entry l h c = ground (arith, c.few, c.many)
