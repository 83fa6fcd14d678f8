-- ===== src/Auth/LoginLimiter/Capacity.antt =====
-- How many IPs `LoginRateLimiter` of internal/web/middleware.go keeps.
use on_watch.Base.{
  ℕ, suc, ◌≤◌, ◌<◌, ◌≡◌, ◌≢◌, ◌⊎◌, refl, ◌∙◌, true, false, Option, none, some, [], ◌∷◌, String,
  arith, length, Dict, lookup, All, Option-cases, Bool-cases, inl, inr, insert, lookup-insert_self,
  length-insert_new, length-insert_known, length-erase-lt, lookup-erase, string_eq,
}
use text.Mathlib.TextEquality.{eq_iff}
use on_watch.Auth.LoginLimiter.{
  LoginAttempt, LoginRateLimiter, no_attempt, is_block_live, pick_oldest, oldest_entry,
  evict_oldest_entry, make_room, record_on, record_failure,
}

oldest_entry-known :
    (now : ℕ) (best : String × Option ℕ) (d : Dict String LoginAttempt)
    → ((oldest_entry now best d).0 ≡ best.0) ⊎ (lookup (oldest_entry now best d).0 d ≢ none)
unfolding oldest_entry
oldest_entry-known now best [] = inl refl
oldest_entry-known now best ((ip, entry) ∷ rest) =
    elim (oldest_entry-known now (pick_oldest now best ip entry) rest) [
      | inl same ↦
          ground (arith, eq_iff ip (oldest_entry now (pick_oldest now best ip entry) rest).0)
      | inr later ↦ inr (ground arith)
    ]

oldest_entry-named :
    (now : ℕ) (best : String × Option ℕ) (d : Dict String LoginAttempt)
    → lookup "" d ≡ none
    → best.0 ≢ ""
    → (oldest_entry now best d).0 ≢ ""
unfolding oldest_entry
oldest_entry-named now best [] h ne = ne
oldest_entry-named now best ((ip, entry) ∷ rest) h ne =
    oldest_entry-named now (pick_oldest now best ip entry) rest (ground arith)
      (ground (arith, eq_iff ip ""))

-- An entry whose block is not live is found, if no IP is the empty text.
oldest_entry-found :
    (now : ℕ) (j : String) (entry : LoginAttempt) (d : Dict String LoginAttempt)
    → lookup "" d ≡ none
    → lookup j d ≡ some entry
    → is_block_live now entry ≡ false
    → (oldest_entry now ("", none) d).0 ≢ ""
unfolding oldest_entry
oldest_entry-found now j entry [] h known idle = cc
oldest_entry-found now j entry ((ip, other) ∷ rest) h known idle =
    elim (Bool-cases (is_block_live now other)) [
      | inl live ↦
          rw (live, oldest_entry)
            (oldest_entry-found now j entry rest (ground arith) (ground arith) idle)
      | inr free ↦
          rw (free, oldest_entry)
            (oldest_entry-named now (ip, some other.last_fail) rest (ground arith)
              (ground (arith, eq_iff ip "")))
    ]

evict_oldest_entry-lt :
    (now : ℕ) (j : String) (entry : LoginAttempt) (l : LoginRateLimiter)
    → lookup "" l.attempts ≡ none
    → lookup j l.attempts ≡ some entry
    → is_block_live now entry ≡ false
    → length (evict_oldest_entry now l).attempts < length l.attempts
unfolding evict_oldest_entry
evict_oldest_entry-lt now j entry l h known idle = ground (
  arith,
  oldest_entry-known now ("", none) l.attempts,
  oldest_entry-found now j entry l.attempts h known idle,
  eq_iff (oldest_entry now ("", none) l.attempts).0 "",
  length-erase-lt (oldest_entry now ("", none) l.attempts).0 l.attempts,
)

evict_oldest_entry-absent :
    (now : ℕ) (ip : String) (l : LoginRateLimiter)
    → lookup ip l.attempts ≡ none
    → lookup ip (evict_oldest_entry now l).attempts ≡ none
unfolding evict_oldest_entry
evict_oldest_entry-absent now ip l h =
    ground (arith, lookup-erase (oldest_entry now ("", none) l.attempts).0 ip l.attempts)

make_room-absent :
    (now : ℕ) (ip : String) (l : LoginRateLimiter)
    → lookup ip l.attempts ≡ none
    → lookup ip (make_room now l).attempts ≡ none
unfolding make_room
make_room-absent now ip l h = ground (arith, evict_oldest_entry-absent now ip l h)

length-record_failure_new :
    (ip : String) (et now : ℕ) (l : LoginRateLimiter)
    → lookup ip l.attempts ≡ none
    → length (record_failure ip et now l).1.attempts ≡ suc (length (make_room et l).attempts)
unfolding record_failure
length-record_failure_new ip et now l h = ground (
  arith,
  length-insert_new ip no_attempt (make_room et l).attempts (make_room-absent et ip l h),
  length-insert_known ip (record_on now no_attempt) no_attempt
      (insert ip no_attempt (make_room et l).attempts)
      (lookup-insert_self ip no_attempt (make_room et l).attempts),
)

length-record_failure_known :
    (ip : String) (et now : ℕ) (entry : LoginAttempt) (l : LoginRateLimiter)
    → lookup ip l.attempts ≡ some entry
    → length (record_failure ip et now l).1.attempts ≡ length l.attempts
unfolding record_failure
length-record_failure_known ip et now entry l h =
    ground (arith, length-insert_known ip (record_on now entry) entry l.attempts h)

-- A failure keeps the number of tracked IPs within `maxIPs`, if at the time of the eviction some
-- tracked IP has no live block, and no tracked IP is the empty text.
pub record_failure_within_capacity :
    (ip j : String) (et now : ℕ) (entry : LoginAttempt) (l : LoginRateLimiter)
    → length l.attempts ≤ l.max_ips
    → lookup "" l.attempts ≡ none
    → lookup j l.attempts ≡ some entry
    → is_block_live et entry ≡ false
    → length (record_failure ip et now l).1.attempts ≤ l.max_ips
unfolding make_room
record_failure_within_capacity ip j et now entry l fits h known idle =
    elim (Option-cases (lookup ip l.attempts)) [
      | inl fresh ↦ ground (
        arith,
        length-record_failure_new ip et now l fresh,
        evict_oldest_entry-lt et j entry l h known idle,
      )
      | inr (old, tracked) ↦ ground (arith, length-record_failure_known ip et now old l tracked)
    ]

oldest_entry-All_live :
    (now : ℕ) (best : String × Option ℕ) (d : Dict String LoginAttempt)
    → All (λ p. is_block_live now p.1 ≡ true) d
    → oldest_entry now best d ≡ best
unfolding oldest_entry
oldest_entry-All_live now best [] h = refl
oldest_entry-All_live now best ((ip, entry) ∷ rest) h =
    oldest_entry-All_live now (pick_oldest now best ip entry) rest h.1 ∙ ground arith

evict_nothing :
    (now : ℕ) (l : LoginRateLimiter)
    → All (λ p. is_block_live now p.1 ≡ true) l.attempts
    → (evict_oldest_entry now l).attempts ≡ l.attempts
unfolding evict_oldest_entry
evict_nothing now l live = rw (oldest_entry-All_live now ("", none) l.attempts live) refl

-- Where every tracked IP has a live block nothing is evicted: each failure of a new IP adds an
-- entry, however many `maxIPs` allows.
pub record_failure_over_capacity :
    (ip : String) (et now : ℕ) (l : LoginRateLimiter)
    → lookup ip l.attempts ≡ none
    → All (λ p. is_block_live et p.1 ≡ true) l.attempts
    → length (record_failure ip et now l).1.attempts ≡ suc (length l.attempts)
unfolding make_room
record_failure_over_capacity ip et now l fresh live =
    ground (arith, length-record_failure_new ip et now l fresh, evict_nothing et l live)
