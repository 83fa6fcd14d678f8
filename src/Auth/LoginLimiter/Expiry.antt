-- ===== src/Auth/LoginLimiter/Expiry.antt =====
-- When a block of `LoginRateLimiter` (internal/web/middleware.go) is over, and what it leaves.
use on_watch.Base.{
  ℕ, ◌+◌, ◌^◌, ◌<◌, ◌≤◌, ◌≡◌, ◌∙◌, ap, refl, true, false, some, Bool-cases, List, [], ◌∷◌, String,
  arith, inl, inr, leb, lookup, lookup-insert_self, IsMap, string_eq,
}
use text.Mathlib.Text.{◌==◌ as str_eq}
use text.Mathlib.TextEquality.{eq_iff}
use on_watch.Auth.LoginLimiter.{
  block_duration, is_stale, LoginAttempt, LoginRateLimiter, record_on, record_failure, is_blocked,
  evict_stale_entries,
}
use on_watch.Auth.LoginLimiter.Entries.{
  record_failure-own, record_failure-IsMap, is_blocked-IsMap, drop_stale-recent, drop_stale-dropped,
  drop_stale-IsMap,
}
use on_watch.Auth.LoginLimiter.Blocking.{Call, fail, query, sweep, serve, serve_all}
use on_watch.Auth.LoginLimiter.Threshold.{IsCounted, record_on-IsCounted, is_blocked-counted}
use on_watch.Auth.LoginLimiter.Counting.{
  AllFit, failures_of, fail-other, query-other, is_blocked-live, serve_all-Counts,
}

-- The IP has an entry that counts nothing.
abbrev Cleared : String → LoginRateLimiter → Type 0
Cleared ip l =
    IsMap l.attempts
    × ((e : LoginAttempt) × (lookup ip l.attempts ≡ some e) × (e.failures ≡ 0) × (e.blocked_at ≡ 0))

Cleared-IsCounted :
    (now : ℕ) (e : LoginAttempt) → e.failures ≡ 0 → e.blocked_at ≡ 0 → IsCounted now e
Cleared-IsCounted now e none_left free = record {
  few = λ _. free;
  many = λ k. absurd (omega (arith, none_left, k));
}

query-cleared :
    (i ip : String) (now t : ℕ) (e : LoginAttempt) (l : LoginRateLimiter)
    → t ≤ now
    → lookup ip l.attempts ≡ some e
    → IsCounted now e
    → lookup ip (is_blocked i t l).1.attempts ≡ some e
query-cleared i ip now t e l early known c = elim (Bool-cases (str_eq i ip)) [
  | inr differs ↦ query-other i ip t l differs ∙ known
  | inl same ↦
      let it : i ≡ ip = (eq_iff i ip).0 same in
      rw it (ap (λ u. lookup ip u.attempts) (is_blocked-live ip now t e l early known c) ∙ known)
]

serve_all-Cleared :
    (ip : String) (now : ℕ) (cs : List Call) (l : LoginRateLimiter)
    → AllFit ip now cs l
    → failures_of ip cs < 2 ^ 31
    → Cleared ip l
    → (is_blocked ip now (serve_all cs l)).0 ≡ leb 5 (failures_of ip cs)
unfolding serve_all AllFit serve evict_stale_entries
serve_all-Cleared ip now [] l fit small (m, (e, known, none_left, free)) =
    is_blocked-counted ip now e l known (Cleared-IsCounted now e none_left free) ∙ ground arith
serve_all-Cleared ip now (fail i et t ∷ cs) l (inl (it, pos, recent), fit) small
      (m, (e, known, none_left, free)) =
    let same : str_eq i ip ≡ true = (eq_iff i ip).1 it in
    serve_all-Counts ip now 1 cs (record_failure i et t l).1 fit (ground arith) (
      inr (
        record_on t e,
        rw it (record_failure-own ip et t e l known),
        ground arith,
        record_on-IsCounted now t e pos recent (omega (arith, none_left))
            (Cleared-IsCounted now e none_left free),
        recent,
      ))
    ∙ ground arith
serve_all-Cleared ip now (fail i et t ∷ cs) l (inr (differs, kept), fit) small
      (m, (e, known, none_left, free)) =
    serve_all-Cleared ip now cs (record_failure i et t l).1 fit (ground arith) (
      record_failure-IsMap i et t l m,
      (e, fail-other i ip et t l differs kept ∙ known, none_left, free),
    )
    ∙ ground arith
serve_all-Cleared ip now (query i t ∷ cs) l (early, fit) small (m, (e, known, none_left, free)) =
    serve_all-Cleared ip now cs (is_blocked i t l).1 fit (ground arith) (
      is_blocked-IsMap i t l m,
      (
        e,
        query-cleared i ip now t e l early known (Cleared-IsCounted now e none_left free),
        none_left,
        free,
      ),
    )
    ∙ ground arith
serve_all-Cleared ip now (sweep max_age t ∷ cs) l ((early, old), fit) small
      (m, (e, known, none_left, free)) =
    elim (Bool-cases (is_stale max_age t e)) [
      | inl stale ↦
          serve_all-Counts ip now 0 cs (evict_stale_entries max_age t l) fit (ground arith)
            (inl (drop_stale-dropped max_age t ip e l.attempts m known stale, refl))
          ∙ ground arith
      | inr fresh ↦
          serve_all-Cleared ip now cs (evict_stale_entries max_age t l) fit (ground arith) (
            drop_stale-IsMap max_age t l.attempts m,
            (e, drop_stale-recent max_age t ip e l.attempts known fresh, none_left, free),
          )
          ∙ ground arith
    ]

reset_entry :
    (ip : String) (end : ℕ) (entry : LoginAttempt) (l : LoginRateLimiter)
    → lookup ip l.attempts ≡ some entry
    → 0 < entry.blocked_at
    → entry.blocked_at + block_duration ≤ end
    → lookup ip (is_blocked ip end l).1.attempts
      ≡ some (record entry { blocked_at = 0; failures = 0 })
unfolding is_blocked
reset_entry ip end entry l h pos late =
    ground (arith, lookup-insert_self ip (record entry { blocked_at = 0; failures = 0 }) l.attempts)

-- An `IsBlocked` call at least five minutes after a block began answers no, and the next failures
-- count from none: after any further calls the IP is blocked exactly if five or more of them are its
-- own failures, and these are fewer than 2 ^ 31. Each of its failures is less than five minutes
-- before `now`, at a positive time. A failure of another IP is of one that is tracked, or there is
-- room for it, so that nothing is evicted. Queries of any IP and sweeps come no later than `now`, and
-- sweeps are of an age of five minutes or more. `Clear` is not among the calls. No IP has two entries.
pub block_expires :
    (ip : String) (end now : ℕ) (cs : List Call) (entry : LoginAttempt) (l : LoginRateLimiter)
    → IsMap l.attempts
    → lookup ip l.attempts ≡ some entry
    → 0 < entry.blocked_at
    → entry.blocked_at + block_duration ≤ end
    → failures_of ip cs < 2 ^ 31
    → AllFit ip now cs (is_blocked ip end l).1
    → ((is_blocked ip end l).0 ≡ false)
      × ((is_blocked ip now (serve_all cs (is_blocked ip end l).1)).0 ≡ leb 5 (failures_of ip cs))
block_expires ip end now cs entry l m h pos late small fit = (
  unfold is_blocked in ground arith,
  serve_all-Cleared ip now cs (is_blocked ip end l).1 fit small (
    is_blocked-IsMap ip end l m,
    (
      record entry { blocked_at = 0; failures = 0 },
      reset_entry ip end entry l h pos late,
      refl,
      refl,
    ),
  ),
)
