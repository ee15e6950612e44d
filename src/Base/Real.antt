-- ===== src/Base/Real.antt =====
-- The floating point arithmetic that the program uses, as a parameter: the operations of C's
-- `float` and `double` (which the models do not tell apart) and of <math.h>.
use Prim.Native.Nat.{ℕ}
use mathlib.Core.Bool.{Bool}
use cpcbm.Base.Int.{ℤ}

pub record Real : Type 1 where
  pub R : Type 0
  -- the literal m * 10^-k
  pub decimal : ℕ → ℕ → R
  pub add : R → R → R
  pub sub : R → R → R
  pub mul : R → R → R
  pub div : R → R → R
  pub neg : R → R
  pub sqrt : R → R
  pub fabs : R → R
  pub ceil : R → R
  pub floor : R → R
  pub atan2 : R → R → R
  pub cos : R → R
  pub sin : R → R
  pub lt : R → R → Bool
  pub eq : R → R → Bool
  -- conversions of `trunc(x)` and `round(x)`, and of an unsigned integer
  pub trunc_u8 : R → ℕ
  pub trunc_u16 : R → ℕ
  pub trunc_u32 : R → ℕ
  pub trunc_i32 : R → ℕ
  pub round_u16 : R → ℕ
  pub of_nat : ℕ → R
  -- `lround(x)`, and the conversions to and of a signed integer
  pub lround : R → ℤ
  pub trunc_long : R → ℤ
  pub of_int : ℤ → R

-- A vector over the axes X, Y and Z.
pub record Vec (A : Type 0) : Type 0 where
  pub x : A
  pub y : A
  pub z : A

pub data Axis : Type 0 where
  x_axis y_axis z_axis : Axis

abbrev pub at : {A : Type 0} → Vec A → Axis → A
at v x_axis = v.x
at v y_axis = v.y
at v z_axis = v.z

abbrev pub put : {A : Type 0} → Vec A → Axis → A → Vec A
put v x_axis a = record v { x = a }
put v y_axis a = record v { y = a }
put v z_axis a = record v { z = a }
