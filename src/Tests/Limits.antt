-- ===== src/Tests/Limits.antt =====
-- The two limiters of internal/web at concrete requests.
use on_watch.Base.{
  inl, inr, ℕ, suc, ◌+◌, ◌≤◌, ◌≡◌, refl, true, false, List, [], ◌∷◌, leb, arith, length, string_eq,
}
use on_watch.Auth.LoginLimiter.{
  block_duration, LoginAttempt, LoginRateLimiter, record_failure, is_blocked, evict_stale_entries,
}
use on_watch.Auth.LoginLimiter.Blocking.{
  Call, fail, query, sweep, serve, serve_all, serve_all-keeps_block,
}
use on_watch.Auth.LoginLimiter.Expiry.{block_expires}
use on_watch.Auth.LoginLimiter.Counting.{failures_of, AllFit, is_blocked-iff-five}
use on_watch.Auth.LoginLimiter.Capacity.{
  record_failure_within_capacity, record_failure_over_capacity,
}
use on_watch.Auth.RateLimiter.{RateLimiter, new_rate_limiter, allow, get_remaining}
use on_watch.Auth.RateLimiter.Bounds.{Request, granted, run, granted-le-max, allow-iff-remaining}

abbrev blocked_entry : LoginAttempt
blocked_entry = record { failures = 5; last_fail = 50; blocked_at = 50 }

abbrev idle_entry : LoginAttempt
idle_entry = record { failures = 2; last_fail = 40; blocked_at = 0 }

abbrev full_limiter : LoginRateLimiter
full_limiter = record {
  attempts = ("10.0.0.1", blocked_entry) ∷ ("10.0.0.2", idle_entry) ∷ [];
  max_ips = 2;
}

abbrev blocked_limiter : LoginRateLimiter
blocked_limiter = record { attempts = ("10.0.0.1", blocked_entry) ∷ []; max_ips = 1 }

abbrev attack : List Call
attack = fail "10.0.0.3" 60 60 ∷ fail "10.0.0.1" 61 61 ∷ query "10.0.0.1" 62 ∷ sweep 1 70 ∷ []

serve_all-keeps_block_example : (is_blocked "10.0.0.1" 80 (serve_all attack full_limiter)).0 ≡ true
serve_all-keeps_block_example =
    serve_all-keeps_block attack "10.0.0.1" 50 80 full_limiter (ground arith) (omega arith) refl
      (ground arith) (ground arith)

-- Five failures of one IP, with calls on others in between.
abbrev five_times : List Call
five_times =
    fail "10.0.0.3" 10 10
    ∷ fail "10.0.0.3" 20 20
    ∷ fail "10.0.0.1" 25 25
    ∷ query "10.0.0.3" 26
    ∷ fail "10.0.0.3" 30 30
    ∷ sweep block_duration 35
    ∷ fail "10.0.0.3" 40 40
    ∷ fail "10.0.0.3" 50 50
    ∷ []

-- Each of the five is the IP's own, and the other failure is of an IP that is tracked.
five_times-AllFit : AllFit "10.0.0.3" 60 five_times blocked_limiter
unfolding AllFit serve record_failure is_blocked evict_stale_entries
five_times-AllFit = (
  inl (refl, ground arith, ground arith),
  (
    inl (refl, ground arith, ground arith),
    (
      inr (refl, inl (blocked_entry, refl)),
      (
        ground arith,
        (
          inl (refl, ground arith, ground arith),
          (
            (ground arith, ground arith),
            (inl (refl, ground arith, ground arith), (inl (refl, ground arith, ground arith), tt)),
          ),
        ),
      ),
    ),
  ),
)

is_blocked-iff-five_example :
    (is_blocked "10.0.0.3" 60 (serve_all five_times blocked_limiter)).0
    ≡ leb 5 (failures_of "10.0.0.3" five_times)
is_blocked-iff-five_example =
    is_blocked-iff-five "10.0.0.3" 60 five_times blocked_limiter refl (ground arith)
      five_times-AllFit

abbrev later : ℕ
later = 60 + block_duration

-- After the block, a failure of the IP, and one of another that is tracked.
abbrev one_more : List Call
one_more = fail "10.0.0.1" later later ∷ fail "10.0.0.2" later later ∷ []

one_more-AllFit : AllFit "10.0.0.1" later one_more (is_blocked "10.0.0.1" later full_limiter).1
unfolding AllFit serve record_failure is_blocked
one_more-AllFit = (inl (refl, ground arith, ground arith), (inr (refl, inl (idle_entry, refl)), tt))

block_expires_example :
    ((is_blocked "10.0.0.1" later full_limiter).0 ≡ false)
    × ((is_blocked "10.0.0.1" later
          (serve_all one_more (is_blocked "10.0.0.1" later full_limiter).1)).0
        ≡ leb 5 (failures_of "10.0.0.1" one_more))
block_expires_example =
    block_expires "10.0.0.1" later later one_more blocked_entry full_limiter (ground arith) refl
      (ground arith) (ground arith) (ground arith) one_more-AllFit

record_failure_within_capacity_example :
    length (record_failure "10.0.0.3" 60 60 full_limiter).1.attempts ≤ 2
record_failure_within_capacity_example =
    record_failure_within_capacity "10.0.0.3" "10.0.0.2" 60 60 idle_entry full_limiter
      (ground arith) refl refl refl

record_failure_over_capacity_example :
    length (record_failure "10.0.0.3" 60 60 blocked_limiter).1.attempts ≡ suc 1
record_failure_over_capacity_example =
    record_failure_over_capacity "10.0.0.3" 60 60 blocked_limiter refl (refl, tt)

abbrev requests : List Request
requests = ("a", 1) ∷ ("b", 2) ∷ ("a", 3) ∷ ("a", 4) ∷ []

granted-le-max_example : granted "a" requests (new_rate_limiter 2 10) ≤ 2
unfolding new_rate_limiter
granted-le-max_example = granted-le-max "a" 0 requests (new_rate_limiter 2 10) (ground arith)

allow-iff-remaining_example :
    (allow "a" 5 (run requests (new_rate_limiter 2 10))).0
    ≡ leb 1 (get_remaining "a" 5 5 (run requests (new_rate_limiter 2 10))).0
allow-iff-remaining_example = allow-iff-remaining requests 2 10 "a" 5 5

abbrev spent_limiter : RateLimiter
spent_limiter = record {
  attempts = ("a", 2) ∷ [];
  last_attempt = ("a", 3) ∷ [];
  max_attempts = 2;
  window = 10;
}
