-- ===== src/Float.antt =====
-- float64 as an interface: the operations of the language that the program applies to usage
-- values, and the IEEE 754 facts about comparisons and sums that some theorems take as hypotheses.
use on_watch.Base.{ℕ, ◌≡◌, Bool, true, false}

pub record Float64 (F : Type 0) : Type 0 where
  pub zero : F
  pub add : F → F → F
  pub sub : F → F → F
  pub mul : F → F → F
  pub div : F → F → F
  -- `a < b`, `a <= b` and `a == b`; all are false where a side is NaN.
  pub lt : F → F → Bool
  pub le : F → F → Bool
  pub eq : F → F → Bool
  -- The literal of these digits with so many of them behind the point: `0.20` is `lit 20 2`.
  pub lit : ℕ → ℕ → F

-- What IEEE 754 says of `<` and `+` at all values, the infinities and NaN included.
pub record IsIeee {F : Type 0} (fl : Float64 F) : Type 0 where
  pub lt_irrefl : (a : F) → fl.lt a a ≡ false
  pub lt_trans : (a b c : F) → fl.lt a b ≡ true → fl.lt b c ≡ true → fl.lt a c ≡ true
  -- Adding a positive value never gives a smaller one (it may give NaN, which is not less).
  pub add_grows : (a d : F) → fl.lt fl.zero d ≡ true → fl.lt (fl.add a d) a ≡ false
