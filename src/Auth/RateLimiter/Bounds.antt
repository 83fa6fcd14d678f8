-- ===== src/Auth/RateLimiter/Bounds.antt =====
-- What `Allow` and `GetRemaining` of internal/web/security.go promise over sequences of requests.
use on_watch.Base.{
  ℕ, ◌+◌, ◌-◌, ◌≤◌, ◌<◌, ◌≡◌, ◌∙◌, Bool, true, false, none, some, List, [], ◌∷◌, String, leb,
  if◌then◌else◌, arith, Bool-cases, lookup, lookup-insert, string_eq, beq_refl, inl, inr,
}
use text.Mathlib.Text.{◌==◌ as str_eq}
use text.Mathlib.TextEquality.{eq_iff}
use on_watch.Auth.RateLimiter.{
  RateLimiter, get_attempts, window_passed, reset_counter, admit, new_rate_limiter, allow,
  get_remaining,
}

-- A request: its IP and the time at which `Allow` reads the clock.
abbrev pub Request : Type 0
Request = String × ℕ

one_if : Bool → ℕ
one_if true = 1
one_if false = 0

-- How many of the requests that an IP makes are allowed, in order.
unfoldable pub granted : String → List Request → RateLimiter → ℕ
unfolding one_if
granted ip [] rl = 0
granted ip ((who, now) ∷ rest) rl =
    let (ok, rl') = allow who now rl in
    (if str_eq who ip then one_if ok else 0) + granted ip rest rl'

unfoldable pub run : List Request → RateLimiter → RateLimiter
run [] rl = rl
run ((who, now) ∷ rest) rl = run rest (allow who now rl).1

-- Every request falls into the window that begins at `start`.
abbrev pub IsWithin : ℕ → ℕ → List Request → Type 0
IsWithin start window [] = Unit
IsWithin start window ((_, now) ∷ rest) =
    (start ≤ now) × (now ≤ start + window) × IsWithin start window rest

-- What an IP may still be granted before the window from `start` is over.
budget : String → ℕ → RateLimiter → ℕ
budget ip start rl = elim (lookup ip rl.last_attempt) [
  | none ↦ rl.max_attempts - get_attempts ip rl
  | some last ↦ if leb start last then rl.max_attempts - get_attempts ip rl else rl.max_attempts
]

-- The counter that `Allow` tests: 0 once the window has passed.
abbrev tested : String → ℕ → RateLimiter → ℕ
tested ip now rl = if window_passed ip now rl then 0 else get_attempts ip rl

tested-reset :
    (ip : String) (now : ℕ) (rl : RateLimiter)
    → get_attempts ip (reset_counter ip now rl) ≡ tested ip now rl
unfolding reset_counter
tested-reset ip now rl = ground (arith, lookup-insert ip ip 0 rl.attempts, beq_refl ip)

reset_other :
    (ip who : String) (now : ℕ) (rl : RateLimiter)
    → str_eq who ip ≡ false
    → get_attempts ip (reset_counter who now rl) ≡ get_attempts ip rl
unfolding reset_counter
reset_other ip who now rl ne = ground (arith, lookup-insert who ip 0 rl.attempts)

reset-last :
    (ip who : String) (now : ℕ) (rl : RateLimiter)
    → lookup ip (reset_counter who now rl).last_attempt ≡ lookup ip rl.last_attempt
unfolding reset_counter
reset-last ip who now rl = ground arith

reset_limits :
    (who : String) (now : ℕ) (rl : RateLimiter)
    → ((reset_counter who now rl).max_attempts ≡ rl.max_attempts)
      × ((reset_counter who now rl).window ≡ rl.window)
unfolding reset_counter
reset_limits who now rl = ground arith

admit_limits :
    (who : String) (now : ℕ) (rl : RateLimiter)
    → ((admit who now rl).1.max_attempts ≡ rl.max_attempts)
      × ((admit who now rl).1.window ≡ rl.window)
unfolding admit
admit_limits who now rl = ground arith

allow-window : (who : String) (now : ℕ) (rl : RateLimiter) → (allow who now rl).1.window ≡ rl.window
unfolding allow
allow-window who now rl =
    (admit_limits who now (reset_counter who now rl)).1 ∙ (reset_limits who now rl).1

-- A reset falls into the span only while the last granted request stands before it.
budget-reset :
    (ip who : String) (start now : ℕ) (rl : RateLimiter)
    → start ≤ now
    → now ≤ start + rl.window
    → budget ip start (reset_counter who now rl) ≤ budget ip start rl
unfolding budget
budget-reset ip who start now rl h k = elim (Bool-cases (str_eq who ip)) [
  | inl same ↦ ground (
    arith,
    reset-last ip who now rl,
    tested-reset ip now rl,
    (reset_limits who now rl).0,
    eq_iff who ip,
  )
  | inr ne ↦
      ground
        (arith, reset-last ip who now rl, reset_other ip who now rl ne, (reset_limits who now rl).0)
]

budget-admit :
    (ip who : String) (start now : ℕ) (rl : RateLimiter)
    → start ≤ now
    → (if str_eq who ip then one_if (admit who now rl).0 else 0)
        + budget ip start (admit who now rl).1
      ≤ budget ip start rl
unfolding admit budget one_if
budget-admit ip who start now rl h = ground (
  arith,
  lookup-insert who ip (get_attempts who rl + 1) rl.attempts,
  lookup-insert who ip now rl.last_attempt,
  eq_iff who ip,
)

budget-le : (ip : String) (start : ℕ) (rl : RateLimiter) → budget ip start rl ≤ rl.max_attempts
unfolding budget
budget-le ip start rl = ground arith

-- An allowed request uses up a part of the budget; a request of another IP leaves it alone.
allow-budget :
    (ip who : String) (start now : ℕ) (rl : RateLimiter)
    → start ≤ now
    → now ≤ start + rl.window
    → (if str_eq who ip then one_if (allow who now rl).0 else 0)
        + budget ip start (allow who now rl).1
      ≤ budget ip start rl
unfolding allow
allow-budget ip who start now rl h k = omega (
  arith,
  budget-admit ip who start now (reset_counter who now rl) h,
  budget-reset ip who start now rl h k,
)

granted-le-budget :
    (ip : String) (start : ℕ) (rs : List Request) (rl : RateLimiter)
    → IsWithin start rl.window rs
    → granted ip rs rl ≤ budget ip start rl
unfolding granted
granted-le-budget ip start [] rl w = omega arith
granted-le-budget ip start ((who, now) ∷ rest) rl w = omega (
  arith,
  allow-budget ip who start now rl w.0 w.1,
  granted-le-budget ip start rest (allow who now rl).1 (rw (allow-window who now rl) w.2),
)

-- In a span of time no longer than the window, from any state of the limiter and however the
-- requests of other IPs fall between, an IP is granted at most `max_attempts` requests.
pub granted-le-max :
    (ip : String) (start : ℕ) (rs : List Request) (rl : RateLimiter)
    → IsWithin start rl.window rs
    → granted ip rs rl ≤ rl.max_attempts
granted-le-max ip start rs rl w =
    omega (arith, granted-le-budget ip start rs rl w, budget-le ip start rl)

-- An IP that was refused is allowed again once the window has passed since its last granted
-- request: refusals do not extend the wait.
pub allow_after_window :
    (ip : String) (now : ℕ) (rl : RateLimiter)
    → window_passed ip now rl ≡ true
    → 0 < rl.max_attempts
    → (allow ip now rl).0 ≡ true
unfolding allow
allow_after_window ip now rl h k = ground (arith, lookup-insert ip ip 0 rl.attempts, beq_refl ip)

-- A counter stands above 0 only beside the time of a granted request.
abbrev pub IsConsistent : RateLimiter → Type 0
IsConsistent rl = (ip : String) → lookup ip rl.last_attempt ≡ none → get_attempts ip rl ≡ 0

reset-IsConsistent :
    (who : String) (now : ℕ) (rl : RateLimiter)
    → IsConsistent rl
    → IsConsistent (reset_counter who now rl)
unfolding reset_counter
reset-IsConsistent who now rl c ip h = ground (arith, c ip, lookup-insert who ip 0 rl.attempts)

admit-IsConsistent :
    (who : String) (now : ℕ) (rl : RateLimiter)
    → IsConsistent rl
    → IsConsistent (admit who now rl).1
unfolding admit
admit-IsConsistent who now rl c ip h = ground (
  arith,
  c ip,
  lookup-insert who ip (get_attempts who rl + 1) rl.attempts,
  lookup-insert who ip now rl.last_attempt,
)

run-IsConsistent :
    (rs : List Request) (rl : RateLimiter) → IsConsistent rl → IsConsistent (run rs rl)
unfolding run allow
run-IsConsistent [] rl c = c
run-IsConsistent ((who, now) ∷ rest) rl c =
    run-IsConsistent rest (allow who now rl).1
      (admit-IsConsistent who now (reset_counter who now rl) (reset-IsConsistent who now rl c))

allow-eq-remaining :
    (rl : RateLimiter) (ip : String) (now later : ℕ)
    → IsConsistent rl
    → (allow ip now rl).0 ≡ leb 1 (get_remaining ip now later rl).0
unfolding allow admit get_remaining
allow-eq-remaining rl ip now later c =
    ground (arith, c ip, tested-reset ip now rl, (reset_limits ip now rl).0)

-- After any requests to a new limiter, a request is allowed exactly if `GetRemaining` reports
-- attempts left at that time.
pub allow-iff-remaining :
    (rs : List Request) (max_attempts window : ℕ) (ip : String) (now later : ℕ)
    → let rl = run rs (new_rate_limiter max_attempts window) in
      (allow ip now rl).0 ≡ leb 1 (get_remaining ip now later rl).0
unfolding new_rate_limiter
allow-iff-remaining rs max_attempts window ip now later =
    allow-eq-remaining _ ip now later
      (run-IsConsistent rs (new_rate_limiter max_attempts window) (λ who h. ground arith))
