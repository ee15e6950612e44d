-- ===== src/Tests/Fixed.antt =====
-- Numbers in thousandths, to run the parser on, with crude angles.
use cpcbm.Base.{
  ℕ, zero, suc, ◌+◌, ◌-◌, ◌*◌, ◌/◌, ◌%◌, ◌^◌, Bool, true, false, not, leb, ◌==◌, if◌then◌else◌,
}
use cpcbm.Base.Int.{ℤ, pos, negsuc}
use cpcbm.Base.Real.{Real}

abbrev magnitude : ℤ → ℕ
magnitude (pos n) = n
magnitude (negsuc n) = n + 1

abbrev is_negative : ℤ → Bool
is_negative (pos n) = false
is_negative (negsuc n) = true

abbrev negate : ℤ → ℤ
negate (pos zero) = pos 0
negate (pos (suc n)) = negsuc n
negate (negsuc n) = pos (n + 1)

abbrev signed : Bool → ℕ → ℤ
signed true n = negate (pos n)
signed false n = pos n

abbrev same : Bool → Bool → Bool
same true b = b
same false b = not b

abbrev plus : ℤ → ℤ → ℤ
plus x y =
    if same (is_negative x) (is_negative y)
    then signed (is_negative x) (magnitude x + magnitude y)
    else if leb (magnitude y) (magnitude x)
    then signed (is_negative x) (magnitude x - magnitude y)
    else signed (is_negative y) (magnitude y - magnitude x)

-- The largest number up to `n` whose square is at most `m`.
abbrev root : ℕ → ℕ → ℕ
root m zero = 0
root m (suc n) = let rest = root m n in if leb (suc n * suc n) m then suc n else rest

abbrev word : ℕ → Bool → ℕ → ℕ
word bits negative n = if negative then (2 ^ bits - n % 2 ^ bits) % 2 ^ bits else n % 2 ^ bits

abbrev pub fixed : Real
fixed = record {
  R = ℤ;
  decimal = λ m k. pos (m * 1000 / 10 ^ k);
  add = plus;
  sub = λ x y. plus x (negate y);
  mul =
      λ x y. signed (not (same (is_negative x) (is_negative y))) (magnitude x * magnitude y / 1000);
  div =
      λ x y. signed (not (same (is_negative x) (is_negative y))) (magnitude x * 1000 / magnitude y);
  neg = negate;
  sqrt = λ x. pos (root (magnitude x * 1000) (magnitude x + 1000));
  fabs = λ x. pos (magnitude x);
  ceil = λ x.
      if is_negative x
      then negate (pos (magnitude x / 1000 * 1000))
      else pos ((magnitude x + 999) / 1000 * 1000);
  floor = λ x.
      if is_negative x
      then negate (pos ((magnitude x + 999) / 1000 * 1000))
      else pos (magnitude x / 1000 * 1000);
  atan2 = λ y x. y;
  cos = λ x. pos 1000;
  sin = λ x. x;
  lt = λ x y. is_negative (plus x (negate y));
  eq = λ x y. magnitude (plus x (negate y)) == 0;
  trunc_u8 = λ x. word 8 (is_negative x) (magnitude x / 1000);
  trunc_u16 = λ x. word 16 (is_negative x) (magnitude x / 1000);
  trunc_u32 = λ x. word 32 (is_negative x) (magnitude x / 1000);
  trunc_i32 = λ x. word 32 (is_negative x) (magnitude x / 1000);
  round_u16 = λ x. word 16 (is_negative x) ((magnitude x + 500) / 1000);
  of_nat = λ n. pos (n * 1000);
  lround = λ x. signed (is_negative x) ((magnitude x + 500) / 1000);
  trunc_long = λ x. signed (is_negative x) (magnitude x / 1000);
  of_int = λ x. signed (is_negative x) (magnitude x * 1000);
}
