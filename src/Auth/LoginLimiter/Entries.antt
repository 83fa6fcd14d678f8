-- ===== src/Auth/LoginLimiter/Entries.antt =====
-- What the methods of `LoginRateLimiter` (internal/web/middleware.go) do to the entry of one IP.
use on_watch.Base.{
  ℕ, ◌≡◌, ◌≢◌, refl, true, false, Option, none, some, [], ◌∷◌, String, arith, Bool-cases,
  Option-cases, inl, inr, Dict, lookup, insert, lookup-insert, lookup-erase, lookup-insert_self,
  insert-IsMap, erase-IsMap, IsMap, string_eq,
}
use text.Mathlib.Text.{◌==◌ as str_eq}
use text.Mathlib.TextEquality.{eq_iff}
use on_watch.Auth.LoginLimiter.{
  LoginAttempt, LoginRateLimiter, no_attempt, is_block_live, pick_oldest, oldest_entry,
  evict_oldest_entry, record_on, record_failure, is_blocked, make_room, is_stale, drop_stale,
}

oldest_entry-absent :
    (now : ℕ) (j : String) (best : String × Option ℕ) (d : Dict String LoginAttempt)
    → best.0 ≢ j
    → lookup j d ≡ none
    → (oldest_entry now best d).0 ≢ j
unfolding oldest_entry
oldest_entry-absent now j best [] ne h = ne
oldest_entry-absent now j best ((ip, entry) ∷ rest) ne h =
    oldest_entry-absent now j (pick_oldest now best ip entry) rest (ground (arith, eq_iff ip j))
      (ground arith)

-- The entry that is picked for eviction is never one whose block is live.
oldest_entry-live :
    (now : ℕ) (j : String) (entry : LoginAttempt) (best : String × Option ℕ)
    (d : Dict String LoginAttempt)
    → best.0 ≢ j
    → IsMap d
    → lookup j d ≡ some entry
    → is_block_live now entry ≡ true
    → (oldest_entry now best d).0 ≢ j
unfolding oldest_entry
oldest_entry-live now j entry best [] ne m h live = cc
oldest_entry-live now j entry best ((ip, other) ∷ rest) ne m h live =
    elim (Bool-cases (str_eq ip j)) [
      | inl same ↦
          oldest_entry-absent now j (pick_oldest now best ip other) rest
            (ground (arith, eq_iff ip j)) (ground (arith, eq_iff ip j))
      | inr differs ↦
          oldest_entry-live now j entry (pick_oldest now best ip other) rest
            (ground (arith, eq_iff ip j)) m.1 (ground arith) live
    ]

evict_oldest_entry-live :
    (now : ℕ) (j : String) (entry : LoginAttempt) (l : LoginRateLimiter)
    → IsMap l.attempts
    → lookup j l.attempts ≡ some entry
    → is_block_live now entry ≡ true
    → lookup j (evict_oldest_entry now l).attempts ≡ some entry
unfolding evict_oldest_entry
evict_oldest_entry-live now j entry l m h live = elim (Bool-cases (str_eq "" j)) [
  | inl empty ↦ ground (
    arith,
    lookup-erase (oldest_entry now ("", none) l.attempts).0 j l.attempts,
    eq_iff "" j,
    eq_iff (oldest_entry now ("", none) l.attempts).0 "",
    eq_iff (oldest_entry now ("", none) l.attempts).0 j,
  )
  | inr named ↦ ground (
    arith,
    lookup-erase (oldest_entry now ("", none) l.attempts).0 j l.attempts,
    eq_iff "" j,
    eq_iff (oldest_entry now ("", none) l.attempts).0 j,
    oldest_entry-live now j entry ("", none) l.attempts,
  )
]

evict_oldest_entry-IsMap :
    (now : ℕ) (l : LoginRateLimiter) → IsMap l.attempts → IsMap (evict_oldest_entry now l).attempts
unfolding evict_oldest_entry
evict_oldest_entry-IsMap now l m =
    ground (arith, erase-IsMap (oldest_entry now ("", none) l.attempts).0 l.attempts m)

make_room-live :
    (now : ℕ) (j : String) (entry : LoginAttempt) (l : LoginRateLimiter)
    → IsMap l.attempts
    → lookup j l.attempts ≡ some entry
    → is_block_live now entry ≡ true
    → lookup j (make_room now l).attempts ≡ some entry
unfolding make_room
make_room-live now j entry l m h live =
    ground (arith, evict_oldest_entry-live now j entry l m h live)

make_room-IsMap :
    (now : ℕ) (l : LoginRateLimiter) → IsMap l.attempts → IsMap (make_room now l).attempts
unfolding make_room
make_room-IsMap now l m = ground (arith, evict_oldest_entry-IsMap now l m)

-- What a failure does to the entry of its own IP and to any entry whose block is live.
pub record_failure-own :
    (ip : String) (et now : ℕ) (entry : LoginAttempt) (l : LoginRateLimiter)
    → lookup ip l.attempts ≡ some entry
    → lookup ip (record_failure ip et now l).1.attempts ≡ some (record_on now entry)
unfolding record_failure
record_failure-own ip et now entry l h =
    ground (arith, lookup-insert_self ip (record_on now entry) l.attempts)

pub record_failure-new :
    (ip : String) (et now : ℕ) (l : LoginRateLimiter)
    → lookup ip l.attempts ≡ none
    → lookup ip (record_failure ip et now l).1.attempts ≡ some (record_on now no_attempt)
unfolding record_failure
record_failure-new ip et now l h = ground (
  arith,
  lookup-insert_self ip (record_on now no_attempt) (insert ip no_attempt (make_room et l).attempts),
)

pub record_failure-other :
    (ip j : String) (et now : ℕ) (entry : LoginAttempt) (l : LoginRateLimiter)
    → str_eq ip j ≡ false
    → IsMap l.attempts
    → lookup j l.attempts ≡ some entry
    → is_block_live et entry ≡ true
    → lookup j (record_failure ip et now l).1.attempts ≡ some entry
unfolding record_failure
record_failure-other ip j et now entry l ne m h live = elim (Option-cases (lookup ip l.attempts)) [
  | inl fresh ↦ ground (
    arith,
    make_room-live et j entry l m h live,
    lookup-insert ip j no_attempt (make_room et l).attempts,
    lookup-insert ip j (record_on now no_attempt) (insert ip no_attempt (make_room et l).attempts),
  )
  | inr (old, known) ↦ ground (arith, lookup-insert ip j (record_on now old) l.attempts)
]

pub record_failure-IsMap :
    (ip : String) (et now : ℕ) (l : LoginRateLimiter)
    → IsMap l.attempts
    → IsMap (record_failure ip et now l).1.attempts
unfolding record_failure
record_failure-IsMap ip et now l m = elim (Option-cases (lookup ip l.attempts)) [
  | inl fresh ↦ ground (
    arith,
    insert-IsMap ip (record_on now no_attempt) (insert ip no_attempt (make_room et l).attempts),
    insert-IsMap ip no_attempt (make_room et l).attempts (make_room-IsMap et l m),
  )
  | inr (old, known) ↦ ground (arith, insert-IsMap ip (record_on now old) l.attempts m)
]

pub drop_stale-live :
    (max_age now : ℕ) (j : String) (entry : LoginAttempt) (d : Dict String LoginAttempt)
    → lookup j d ≡ some entry
    → is_block_live now entry ≡ true
    → lookup j (drop_stale max_age now d) ≡ some entry
drop_stale-live max_age now j entry [] h live = cc
drop_stale-live max_age now j entry ((ip, other) ∷ rest) h live =
    ground (arith, drop_stale-live max_age now j entry rest)

pub drop_stale-recent :
    (max_age now : ℕ) (j : String) (entry : LoginAttempt) (d : Dict String LoginAttempt)
    → lookup j d ≡ some entry
    → is_stale max_age now entry ≡ false
    → lookup j (drop_stale max_age now d) ≡ some entry
drop_stale-recent max_age now j entry [] h recent = cc
drop_stale-recent max_age now j entry ((ip, other) ∷ rest) h recent =
    ground (arith, drop_stale-recent max_age now j entry rest)

pub drop_stale-absent :
    (max_age now : ℕ) (j : String) (d : Dict String LoginAttempt)
    → lookup j d ≡ none
    → lookup j (drop_stale max_age now d) ≡ none
drop_stale-absent max_age now j [] h = refl
drop_stale-absent max_age now j ((ip, other) ∷ rest) h =
    ground (arith, drop_stale-absent max_age now j rest)

pub drop_stale-dropped :
    (max_age now : ℕ) (j : String) (entry : LoginAttempt) (d : Dict String LoginAttempt)
    → IsMap d
    → lookup j d ≡ some entry
    → is_stale max_age now entry ≡ true
    → lookup j (drop_stale max_age now d) ≡ none
drop_stale-dropped max_age now j entry [] m h stale = absurd (cc)
drop_stale-dropped max_age now j entry ((ip, other) ∷ rest) m h stale =
    elim (Bool-cases (str_eq ip j)) [
      | inl same ↦
          let it : ip ≡ j = (eq_iff ip j).0 same in
          let gone : lookup j rest ≡ none = rw it at m.0 in
          ground (arith, drop_stale-absent max_age now j rest gone)
      | inr differs ↦ ground (arith, drop_stale-dropped max_age now j entry rest m.1)
    ]

pub drop_stale-IsMap :
    (max_age now : ℕ) (d : Dict String LoginAttempt) → IsMap d → IsMap (drop_stale max_age now d)
drop_stale-IsMap max_age now [] m = tt
drop_stale-IsMap max_age now ((ip, other) ∷ rest) m =
    ground (arith, drop_stale-IsMap max_age now rest m.1, drop_stale-absent max_age now ip rest)

pub is_blocked-other :
    (ip j : String) (now : ℕ) (entry : LoginAttempt) (l : LoginRateLimiter)
    → lookup j l.attempts ≡ some entry
    → is_block_live now entry ≡ true
    → lookup j (is_blocked ip now l).1.attempts ≡ some entry
unfolding is_blocked
is_blocked-other ip j now entry l h live = elim (Option-cases (lookup ip l.attempts)) [
  | inl fresh ↦ ground arith
  | inr (old, known) ↦ ground (
    arith,
    eq_iff ip j,
    lookup-insert ip j (record old { blocked_at = 0; failures = 0 }) l.attempts,
  )
]

pub is_blocked-IsMap :
    (ip : String) (now : ℕ) (l : LoginRateLimiter)
    → IsMap l.attempts
    → IsMap (is_blocked ip now l).1.attempts
unfolding is_blocked
is_blocked-IsMap ip now l m = elim (Option-cases (lookup ip l.attempts)) [
  | inl fresh ↦ ground arith
  | inr (old, known) ↦
      ground (arith, insert-IsMap ip (record old { blocked_at = 0; failures = 0 }) l.attempts m)
]
