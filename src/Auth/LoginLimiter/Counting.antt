-- ===== src/Auth/LoginLimiter/Counting.antt =====
-- The count of failures of one IP among other calls (`LoginRateLimiter` of
-- internal/web/middleware.go).
use on_watch.Base.{
  ℕ, ◌+◌, ◌^◌, ◌<◌, ◌≤◌, ◌≡◌, ◌⊎◌, ◌∙◌, ap, refl, true, false, none, some, Option-cases, Bool-cases,
  List, [], ◌∷◌, String, arith, inl, inr, length, leb, lookup, lookup-insert, insert, string_eq,
  if◌then◌else◌,
}
use text.Mathlib.Text.{◌==◌ as str_eq}
use text.Mathlib.TextEquality.{eq_iff}
use on_watch.Auth.LoginLimiter.{
  block_duration, no_attempt, make_room, LoginAttempt, LoginRateLimiter, record_on, record_failure,
  is_blocked, evict_stale_entries,
}
use on_watch.Auth.LoginLimiter.Entries.{
  record_failure-own, record_failure-new, drop_stale-absent, drop_stale-recent,
}
use on_watch.Auth.LoginLimiter.Blocking.{Call, fail, query, sweep, serve, serve_all}
use on_watch.Auth.LoginLimiter.Threshold.{IsCounted, record_on-IsCounted, is_blocked-counted}

-- How many of the calls are failures of the IP.
abbrev pub own : String → Call → ℕ
own ip (fail i _ _) = if str_eq i ip then 1 else 0
own ip (query _ _) = 0
own ip (sweep _ _) = 0

abbrev pub failures_of : String → List Call → ℕ
failures_of ip [] = 0
failures_of ip (c ∷ cs) = own ip c + failures_of ip cs

-- The failures of the IP itself are less than five minutes before `now`; those of another one evict
-- nothing, as it is tracked or there is room for it. Queries and sweeps are not after `now`, and
-- sweeps leave what is younger than five minutes.
abbrev pub Fits : String → ℕ → Call → LoginRateLimiter → Type 0
Fits ip now (fail i _ t) l =
    ((i ≡ ip) × (0 < t) × (now < t + block_duration))
    ⊎ ((str_eq i ip ≡ false)
        × (((e : LoginAttempt) × (lookup i l.attempts ≡ some e)) ⊎ (length l.attempts < l.max_ips)))
Fits ip now (query _ t) l = t ≤ now
Fits ip now (sweep max_age t) l = (t ≤ now) × (block_duration ≤ max_age)

unfoldable pub AllFit : String → ℕ → List Call → LoginRateLimiter → Type 0
AllFit ip now [] l = Unit
AllFit ip now (c ∷ cs) l = Fits ip now c l × AllFit ip now cs (serve c l)

-- The entry of the IP after so many failures.
abbrev pub Counts : String → ℕ → ℕ → LoginRateLimiter → Type 0
Counts ip now n l =
    ((lookup ip l.attempts ≡ none) × (n ≡ 0))
    ⊎ ((e : LoginAttempt) × (lookup ip l.attempts ≡ some e)
        × (e.failures ≡ n)
        × IsCounted now e
        × (now < e.last_fail + block_duration))

-- Where a call leaves the entry of the IP as it is.
Counts-same :
    (ip : String) (now n m : ℕ) (l l' : LoginRateLimiter)
    → m ≡ n
    → lookup ip l'.attempts ≡ lookup ip l.attempts
    → Counts ip now n l
    → Counts ip now m l'
Counts-same ip now n m l l' it same (inl (fresh, zero)) = inl (same ∙ fresh, it ∙ zero)
Counts-same ip now n m l l' it same (inr (e, known, count, c, young)) =
    inr (e, same ∙ known, ground arith, c, young)

pub fail-other :
    (i ip : String) (et t : ℕ) (l : LoginRateLimiter)
    → str_eq i ip ≡ false
    → ((e : LoginAttempt) × (lookup i l.attempts ≡ some e)) ⊎ (length l.attempts < l.max_ips)
    → lookup ip (record_failure i et t l).1.attempts ≡ lookup ip l.attempts
unfolding record_failure make_room
fail-other i ip et t l differs (inl (e, known)) =
    ground (arith, lookup-insert i ip (record_on t e) l.attempts)
fail-other i ip et t l differs (inr room) = elim (Option-cases (lookup i l.attempts)) [
  | inl fresh ↦ ground (
    arith,
    lookup-insert i ip no_attempt l.attempts,
    lookup-insert i ip (record_on t no_attempt) (insert i no_attempt l.attempts),
  )
  | inr (e, known) ↦ ground (arith, lookup-insert i ip (record_on t e) l.attempts)
]

fail-own :
    (ip : String) (now n et t : ℕ) (l : LoginRateLimiter)
    → 0 < t
    → now < t + block_duration
    → n + 1 < 2 ^ 31
    → Counts ip now n l
    → Counts ip now (n + 1) (record_failure ip et t l).1
fail-own ip now n et t l pos recent small (inl (fresh, zero)) = inr (
  record_on t no_attempt,
  record_failure-new ip et t l fresh,
  ground arith,
  record_on-IsCounted now t no_attempt pos recent (omega arith)
      (record { few = λ _. refl; many = λ k. absurd (omega arith) }),
  recent,
)
fail-own ip now n et t l pos recent small (inr (e, known, count, c, young)) = inr (
  record_on t e,
  record_failure-own ip et t e l known,
  ground arith,
  record_on-IsCounted now t e pos recent (ground arith) c,
  recent,
)

-- A block that a query finds is live, so that it changes nothing; that of another IP may end.
pub is_blocked-live :
    (ip : String) (now t : ℕ) (e : LoginAttempt) (l : LoginRateLimiter)
    → t ≤ now
    → lookup ip l.attempts ≡ some e
    → IsCounted now e
    → (is_blocked ip t l).1 ≡ l
unfolding is_blocked
is_blocked-live ip now t e l early known c = elim (Bool-cases (leb 5 e.failures)) [
  | inl many ↦ let live = c.many (ground arith) in ground (arith, live)
  | inr few ↦ let free = c.few (ground arith) in ground (arith, free)
]

pub query-other :
    (i ip : String) (t : ℕ) (l : LoginRateLimiter)
    → str_eq i ip ≡ false
    → lookup ip (is_blocked i t l).1.attempts ≡ lookup ip l.attempts
unfolding is_blocked
query-other i ip t l differs = elim (Option-cases (lookup i l.attempts)) [
  | inl fresh ↦ ground arith
  | inr (e, known) ↦
      ground (arith, lookup-insert i ip (record e { blocked_at = 0; failures = 0 }) l.attempts)
]

query-none :
    (ip : String) (t : ℕ) (l : LoginRateLimiter)
    → lookup ip l.attempts ≡ none
    → (is_blocked ip t l).1 ≡ l
unfolding is_blocked
query-none ip t l fresh = ground arith

query-same :
    (i ip : String) (now n t : ℕ) (l : LoginRateLimiter)
    → t ≤ now
    → Counts ip now n l
    → lookup ip (is_blocked i t l).1.attempts ≡ lookup ip l.attempts
query-same i ip now n t l early h = elim (Bool-cases (str_eq i ip)) [
  | inr differs ↦ query-other i ip t l differs
  | inl same ↦
      let it : i ≡ ip = (eq_iff i ip).0 same in
      rw it (elim h [
        | inl (fresh, zero) ↦ ap (λ u. lookup ip u.attempts) (query-none ip t l fresh)
        | inr (e, known, count, c, young) ↦
            ap (λ u. lookup ip u.attempts) (is_blocked-live ip now t e l early known c)
      ])
]

sweep-same :
    (ip : String) (now n max_age t : ℕ) (l : LoginRateLimiter)
    → t ≤ now
    → block_duration ≤ max_age
    → Counts ip now n l
    → lookup ip (evict_stale_entries max_age t l).attempts ≡ lookup ip l.attempts
unfolding evict_stale_entries
sweep-same ip now n max_age t l early old (inl (fresh, zero)) =
    drop_stale-absent max_age t ip l.attempts fresh ∙ ground arith
sweep-same ip now n max_age t l early old (inr (e, known, count, c, young)) =
    drop_stale-recent max_age t ip e l.attempts known (ground arith) ∙ ground arith

serve-Counts :
    (ip : String) (now n : ℕ) (c : Call) (l : LoginRateLimiter)
    → Fits ip now c l
    → n + own ip c < 2 ^ 31
    → Counts ip now n l
    → Counts ip now (n + own ip c) (serve c l)
unfolding serve
serve-Counts ip now n (fail i et t) l (inl (it, pos, recent)) small h =
    let same : str_eq i ip ≡ true = (eq_iff i ip).1 it in
    let small' : n + 1 < 2 ^ 31 = rw same at small in
    rw (same, it) (fail-own ip now n et t l pos recent small' h)
serve-Counts ip now n (fail i et t) l (inr (differs, kept)) small h =
    Counts-same ip now n _ l (record_failure i et t l).1 (ground arith)
      (fail-other i ip et t l differs kept) h
serve-Counts ip now n (query i t) l early small h =
    Counts-same ip now n _ l (is_blocked i t l).1 (ground arith) (query-same i ip now n t l early h)
      h
serve-Counts ip now n (sweep max_age t) l (early, old) small h =
    Counts-same ip now n _ l (evict_stale_entries max_age t l) (ground arith)
      (sweep-same ip now n max_age t l early old h) h

pub serve_all-Counts :
    (ip : String) (now n : ℕ) (cs : List Call) (l : LoginRateLimiter)
    → AllFit ip now cs l
    → n + failures_of ip cs < 2 ^ 31
    → Counts ip now n l
    → (is_blocked ip now (serve_all cs l)).0 ≡ leb 5 (n + failures_of ip cs)
unfolding serve_all AllFit
serve_all-Counts ip now n [] l fit small (inl (fresh, zero)) = unfold is_blocked in ground arith
serve_all-Counts ip now n [] l fit small (inr (e, known, count, c, young)) =
    is_blocked-counted ip now e l known c ∙ ground arith
serve_all-Counts ip now n (c ∷ cs) l fit small h =
    serve_all-Counts ip now (n + own ip c) cs (serve c l) fit.1 (omega arith)
      (serve-Counts ip now n c l fit.0 (omega arith) h)
    ∙ ground arith

-- An IP that has no entry is blocked after any calls exactly if five or more of them are its own
-- failures, and these are fewer than 2 ^ 31. Each of its failures is less than five minutes before
-- `now`, at a positive time. A failure of another IP is of one that is tracked, or there is room for
-- it, so that nothing is evicted. Queries of any IP and sweeps come no later than `now`, and sweeps
-- are of an age of five minutes or more. `Clear` is not among the calls.
pub is_blocked-iff-five :
    (ip : String) (now : ℕ) (cs : List Call) (l : LoginRateLimiter)
    → lookup ip l.attempts ≡ none
    → failures_of ip cs < 2 ^ 31
    → AllFit ip now cs l
    → (is_blocked ip now (serve_all cs l)).0 ≡ leb 5 (failures_of ip cs)
is_blocked-iff-five ip now cs l fresh small fit =
    serve_all-Counts ip now 0 cs l fit (omega arith) (inl (fresh, refl)) ∙ ground arith
