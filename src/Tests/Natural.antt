-- ===== src/Tests/Natural.antt =====
-- Natural numbers in place of `float`, whose order and addition have the laws that the planner needs.
use cpcbm.Base.{ℕ, ◌+◌, ◌-◌, ◌*◌, ◌/◌, ltb, ◌==◌, ◌%◌, ◌^◌, arith}
use cpcbm.Base.Int.{pos, absolute}
use cpcbm.Base.Real.{Real}
use cpcbm.Planner.Profile.{Order}

abbrev pub natural : Real
natural = record {
  R = ℕ;
  decimal = λ m k. m / 10 ^ k;
  add = λ x y. x + y;
  sub = λ x y. x - y;
  mul = λ x y. x * y;
  div = λ x y. x / y;
  neg = λ x. x;
  sqrt = λ x. x;
  fabs = λ x. x;
  ceil = λ x. x;
  floor = λ x. x;
  atan2 = λ y x. y;
  cos = λ x. 1;
  sin = λ x. x;
  lt = ltb;
  eq = λ x y. x == y;
  trunc_u8 = λ x. x % 2 ^ 8;
  trunc_u16 = λ x. x % 2 ^ 16;
  trunc_u32 = λ x. x % 2 ^ 32;
  trunc_i32 = λ x. x % 2 ^ 32;
  round_u16 = λ x. x % 2 ^ 16;
  of_nat = λ n. n;
  lround = λ x. pos x;
  trunc_long = λ x. pos x;
  of_int = absolute;
}

pub natural-Order : Order natural
natural-Order = record {
  le_trans = λ h1 h2. ground arith;
  lt_asym = λ h. ground arith;
  add_le = λ c h. ground arith;
  add_more = λ a h. ground arith;
  more_add = λ c h. ground arith;
}
