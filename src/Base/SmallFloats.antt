-- ===== src/Base/SmallFloats.antt =====
-- A small instance of the f32 interface for the tests: naturals, with 0 as the infinity below all.
use reinstinct.Base.{ℕ, ◌+◌, ◌-◌, ◌*◌, ◌/◌, arith, not, ltb, leb, ◌==◌, if◌then◌else◌}
use reinstinct.Base.Float.{Floats, IsOrdered}

abbrev pub small_floats : Floats
small_floats = record {
  F = ℕ;
  nought = 1;
  one = 2;
  neg_infinity = 0;
  of_nat = λ n. n;
  less = ltb;
  at_most = leb;
  same = λ a b. a == b;
  is_finite = λ a. not (a == 0);
  add = λ a b. a + b;
  sub = λ a b. a - b;
  mul = λ a b. a * b;
  div = λ a b. a / b;
  max = λ a b. if ltb a b then b else a;
  min = λ a b. if ltb a b then a else b;
  neg = λ a. a;
  exp = λ a. a;
  ln = λ a. a;
}

pub small_floats-IsOrdered : IsOrdered small_floats
small_floats-IsOrdered = record {
  above = λ a h. ground arith;
  irrefl = λ a. ground arith;
  trans = λ a b c h k. ground arith;
  neg_trans = λ a b c ha hb hc h k. ground arith;
}
