-- ===== src/Auth/RateLimiter.antt =====
-- `RateLimiter` of internal/web/security.go: at most `max_attempts` requests of an IP in a run of
-- requests with no pause above `window`. Times are nanoseconds.
pub mod Bounds
use on_watch.Base.{
  ℕ, ◌+◌, ◌-◌, Bool, true, false, [], none, some, String, ltb, leb, if◌then◌else◌, Dict, lookup,
  insert, string_eq,
}

pub record RateLimiter : Type 0 where
  pub attempts : Dict String ℕ
  pub last_attempt : Dict String ℕ
  pub max_attempts : ℕ
  pub window : ℕ

unfoldable pub new_rate_limiter : ℕ → ℕ → RateLimiter
new_rate_limiter max_attempts window = record {
  attempts = [];
  last_attempt = [];
  max_attempts = max_attempts;
  window = window;
}

-- A Go map read yields 0 for a missing key.
abbrev pub get_attempts : String → RateLimiter → ℕ
get_attempts ip rl = elim (lookup ip rl.attempts) [ none ↦ 0 | some n ↦ n ]

-- `exists && now.Sub(lastTime) > rl.window`
abbrev pub window_passed : String → ℕ → RateLimiter → Bool
window_passed ip now rl = elim (lookup ip rl.last_attempt) [
  | none ↦ false
  | some last_time ↦ ltb (last_time + rl.window) now
]

pub reset_counter : String → ℕ → RateLimiter → RateLimiter
reset_counter ip now rl =
    if window_passed ip now rl then record rl { attempts = insert ip 0 rl.attempts } else rl

-- `Allow` from the comparison with the limit on.
pub admit : String → ℕ → RateLimiter → Bool × RateLimiter
admit ip now rl = if leb rl.max_attempts (get_attempts ip rl) then (false, rl) else (
  true,
  record rl {
    attempts = insert ip (get_attempts ip rl + 1) rl.attempts;
    last_attempt = insert ip now rl.last_attempt;
  },
)

unfoldable pub allow : String → ℕ → RateLimiter → Bool × RateLimiter
unfolding reset_counter admit
allow ip now rl = admit ip now (reset_counter ip now rl)

-- `time.Since` is read twice: `now` and `later`. A wait below zero is a `Duration` below zero in
-- Go; with a clock that does not pass the window between the two readings there is none.
unfoldable pub get_remaining : String → ℕ → ℕ → RateLimiter → ℕ × ℕ
get_remaining ip now later rl = elim (lookup ip rl.last_attempt) [
  | none ↦ (rl.max_attempts, 0)
  | some last_time ↦
      if ltb (last_time + rl.window) now
      then (rl.max_attempts, 0)
      else (rl.max_attempts - get_attempts ip rl, rl.window - (later - last_time))
]
