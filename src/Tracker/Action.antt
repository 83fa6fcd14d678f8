-- ===== src/Tracker/Action.antt =====
-- A method of a tracker (internal/tracker): it changes the tracker and returns or fails. What was
-- written before a failure stays written.
use on_watch.Base.{◌≡◌, refl, Option, none, some}

-- One for each message that `processQuota` wraps an error of the store with.
pub data CycleError : Type 0 where
  query_failed create_failed initial_peak_failed close_failed new_cycle_failed : CycleError
  update_failed resets_at_failed : CycleError

pub data Result {ℓ} (A : Type ℓ) : Type ℓ where
  ok : A → Result A
  err : CycleError → Result A

abbrev pub Action : Type 0 → Type 0 → Type 0
Action T A = T → Result A × T

abbrev pub and_then : {T A B : Type 0} → (A → Action T B) → Result A × T → Result B × T
and_then f (ok a, t) = f a t
and_then f (err e, t) = (err e, t)

infixl 5 ◌>>=◌ ◌>>◌
abbrev pub ◌>>=◌ : {T A B : Type 0} → Action T A → (A → Action T B) → Action T B
◌>>=◌ m f t = and_then f (m t)

abbrev pub ◌>>◌ : {T A B : Type 0} → Action T A → Action T B → Action T B
m >> k = m >>= λ _. k

abbrev pub modify : {T : Type 0} → (T → T) → Action T (Unit {0})
modify f t = (ok tt, f t)

abbrev pub gets : {T A : Type 0} → (T → A) → Action T A
gets f t = (ok (f t), t)

abbrev pub or_fail : {A : Type 0} → CycleError → Option A → Result A
or_fail e none = err e
or_fail e (some a) = ok a

-- What holds of the end of a sequence, by how its first part ended.
pub and_then-holds {ℓ} :
    {T A B : Type 0} (Q : Result B × T → Type ℓ) (f : A → Action T B) (r : Result A × T)
    → ((a : A) → r.0 ≡ ok a → Q (f a r.1))
    → ((e : CycleError) → r.0 ≡ err e → Q (err e, r.1))
    → Q (and_then f r)
and_then-holds Q f (ok a, t) on_ok on_err = on_ok a refl
and_then-holds Q f (err e, t) on_ok on_err = on_err e refl

pub or_fail-ok :
    {A : Type 0} (e : CycleError) (o : Option A) (a : A) → or_fail e o ≡ ok a → o ≡ some a
or_fail-ok e none a h = cc
or_fail-ok e (some b) a h = cc
