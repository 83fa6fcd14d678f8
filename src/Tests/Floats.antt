-- ===== src/Tests/Floats.antt =====
-- Values of tests: whole numbers, on which `-` stops at 0.
use on_watch.Base.{ℕ, ◌+◌, ◌-◌, ◌*◌, ◌/◌, ◌^◌, leb, ltb, ◌==◌, arith}
use on_watch.Float.{Float64, IsIeee}

instance abbrev pub whole : Float64 ℕ
whole = record {
  zero = 0;
  add = ◌+◌;
  sub = ◌-◌;
  mul = ◌*◌;
  div = ◌/◌;
  lt = ltb;
  le = leb;
  eq = ◌==◌;
  lit = λ digits places. digits / 10 ^ places;
}

pub whole-IsIeee : IsIeee whole
whole-IsIeee = record {
  lt_irrefl = λ a. ground arith;
  lt_trans = λ a b c h k. ground arith;
  add_grows = λ a d h. ground arith;
}
