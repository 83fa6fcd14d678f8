-- ===== src/Auth/LoginLimiter.antt =====
-- `LoginRateLimiter` of internal/web/middleware.go: failed logins by IP. Times are Unix
-- nanoseconds; each call is given the clock readings that the Go method takes. A method runs to
-- its end before the next one begins: the atomics of a single entry are not interleaved.
-- `failures` is an int32, kept as its bit pattern below 2 ^ 32.
pub mod Entries
pub mod Blocking
pub mod Threshold
pub mod Counting
pub mod Expiry
pub mod Capacity
use on_watch.Base.{
  ℕ, suc, ◌+◌, ◌-◌, ◌*◌, ◌%◌, ◌^◌, Bool, true, false, not, ◌&&◌, ◌||◌, Option, none, some, List, [],
  ◌∷◌, String, ltb, leb, ◌==◌, if◌then◌else◌, length, Dict, lookup, insert, erase, string_eq,
}
use text.Mathlib.Text.{◌==◌ as str_eq}

abbrev pub max_failed_attempts : ℕ
max_failed_attempts = 5

-- 5 minutes.
abbrev pub block_duration : ℕ
block_duration = 300 * 10 ^ 9

abbrev pub max_tracked_ips : ℕ
max_tracked_ips = 1000

pub record LoginAttempt : Type 0 where
  pub failures : ℕ
  pub last_fail : ℕ
  pub blocked_at : ℕ

pub record LoginRateLimiter : Type 0 where
  pub attempts : Dict String LoginAttempt
  pub max_ips : ℕ

-- A negative limit is treated as 0 is.
unfoldable pub new_login_rate_limiter : ℕ → LoginRateLimiter
new_login_rate_limiter max_ips = record {
  attempts = [];
  max_ips = if max_ips == 0 then max_tracked_ips else max_ips;
}

abbrev pub no_attempt : LoginAttempt
no_attempt = record { failures = 0; last_fail = 0; blocked_at = 0 }

-- `blockedAt > 0 && now - blockedAt < blockDuration`
abbrev pub is_block_live : ℕ → LoginAttempt → Bool
is_block_live now entry = ltb 0 entry.blocked_at && ltb now (entry.blocked_at + block_duration)

-- The sentinel -1 of `oldestTime` is `none`.
abbrev pub is_older : ℕ → Option ℕ → Bool
is_older last_fail none = true
is_older last_fail (some oldest_time) = ltb last_fail oldest_time

-- The body of the loop of `evictOldestEntry`, on the oldest IP and its time so far.
abbrev pub pick_oldest : ℕ → String × Option ℕ → String → LoginAttempt → String × Option ℕ
pick_oldest now (oldest_ip, oldest_time) ip entry =
    if is_block_live now entry
    then (oldest_ip, oldest_time)
    else if is_older entry.last_fail oldest_time
    then (ip, some entry.last_fail)
    else (oldest_ip, oldest_time)

-- The loop. Go visits a map in no fixed order: the order of the list is one of those.
pub oldest_entry : ℕ → String × Option ℕ → Dict String LoginAttempt → String × Option ℕ
oldest_entry now best [] = best
oldest_entry now best ((ip, entry) ∷ rest) = oldest_entry now (pick_oldest now best ip entry) rest

pub evict_oldest_entry : ℕ → LoginRateLimiter → LoginRateLimiter
unfolding oldest_entry
evict_oldest_entry now l =
    let oldest_ip = (oldest_entry now ("", none) l.attempts).0 in
    if str_eq oldest_ip "" then l else record l { attempts = erase oldest_ip l.attempts }

-- `atomic.AddInt32(&failures, 1)`
abbrev pub add_int32 : ℕ → ℕ
add_int32 n = (n + 1) % 2 ^ 32

-- `failures >= maxFailedAttempts`, of a signed number.
abbrev pub reaches_limit : ℕ → Bool
reaches_limit failures = ltb failures (2 ^ 31) && leb max_failed_attempts failures

-- The atomic updates of an entry: the count, the time, and `blockedAt` by compare-and-swap from 0.
abbrev pub record_on : ℕ → LoginAttempt → LoginAttempt
record_on now entry = record {
  failures = add_int32 entry.failures;
  last_fail = now;
  blocked_at =
      if reaches_limit (add_int32 entry.failures) && entry.blocked_at == 0
      then now
      else entry.blocked_at;
}

pub make_room : ℕ → LoginRateLimiter → LoginRateLimiter
unfolding evict_oldest_entry
make_room evict_time l =
    if leb l.max_ips (length l.attempts) then evict_oldest_entry evict_time l else l

-- The entry that a failure is counted on, and the limiter that holds it.
pub track : String → ℕ → LoginRateLimiter → LoginAttempt × LoginRateLimiter
unfolding make_room
track ip evict_time l = elim (lookup ip l.attempts) [
  | some entry ↦ (entry, l)
  | none ↦
      let room = make_room evict_time l in
      (no_attempt, record room { attempts = insert ip no_attempt room.attempts })
]

-- `evict_time` is the clock in `evictOldestEntry`, `now` the later reading in `RecordFailure`.
unfoldable pub record_failure : String → ℕ → ℕ → LoginRateLimiter → Bool × LoginRateLimiter
unfolding track
record_failure ip evict_time now l =
    let (entry, l') = track ip evict_time l in
    (
      reaches_limit (add_int32 entry.failures),
      record l' { attempts = insert ip (record_on now entry) l'.attempts },
    )

unfoldable pub is_blocked : String → ℕ → LoginRateLimiter → Bool × LoginRateLimiter
is_blocked ip now l = elim (lookup ip l.attempts) [
  | none ↦ (false, l)
  | some entry ↦
      if entry.blocked_at == 0
      then (false, l)
      else if leb (entry.blocked_at + block_duration) now
      then (
        false,
        record l {
          attempts = insert ip (record entry { blocked_at = 0; failures = 0 }) l.attempts;
        },
      )
      else (true, l)
]

unfoldable pub clear : String → LoginRateLimiter → LoginRateLimiter
clear ip l = record l { attempts = erase ip l.attempts }

-- `now - maxAge` is not positive where `-` stops at 0, and no `lastFail` is below it either way.
abbrev pub is_stale : ℕ → ℕ → LoginAttempt → Bool
is_stale max_age now entry =
    not (is_block_live now entry) && (max_age == 0 || ltb entry.last_fail (now - max_age))

abbrev pub drop_stale : ℕ → ℕ → Dict String LoginAttempt → Dict String LoginAttempt
drop_stale max_age now [] = []
drop_stale max_age now ((ip, entry) ∷ rest) =
    let kept = drop_stale max_age now rest in
    if is_stale max_age now entry then kept else (ip, entry) ∷ kept

unfoldable pub evict_stale_entries : ℕ → ℕ → LoginRateLimiter → LoginRateLimiter
evict_stale_entries max_age now l = record l { attempts = drop_stale max_age now l.attempts }
