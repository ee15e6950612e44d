-- ===== src/NutsBolts.antt =====
-- common_src/nuts_bolts.c: `read_float`. The line is the list of the characters from
-- `line[char_counter]` to its end; past the end the terminating zero is read.
pub mod Scan
pub mod ReadFloat
use cpcbm.Base.{
  ℕ, zero, suc, ◌+◌, ◌-◌, ◌*◌, ◌%◌, ◌^◌, Bool, true, false, not, ◌&&◌, List, [], ◌∷◌, Option, none,
  some, ltb, leb, ◌==◌, if◌then◌else◌,
}
use cpcbm.Base.Int.{ℤ, pos, negsuc, increment, decrement}
use cpcbm.Base.Real.{Real}

abbrev pub max_int_digits : ℕ
max_int_digits = 8

-- The variables of the loop. `exp` is an int8_t and `ndigit` a uint8_t; a line has at most 79
-- characters.
pub record Number : Type 0 where
  pub intval : ℕ
  pub exp : ℤ
  pub ndigit : ℕ
  pub isdecimal : Bool

abbrev pub start : Number
start = record { intval = 0; exp = pos 0; ndigit = 0; isdecimal = false }

-- `c -= '0'` on an unsigned char
abbrev pub minus_char_zero : ℕ → ℕ
minus_char_zero c = (c + 256 - b'0') % 256

-- A digit `d`: the first eight count, and of later ones only the place.
abbrev pub take_digit : Number → ℕ → Number
take_digit n d =
    let ndigit = (n.ndigit + 1) % 256 in
    if leb ndigit max_int_digits
    then record n {
      ndigit = ndigit;
      exp = if n.isdecimal then decrement n.exp else n.exp;
      intval = (n.intval * 10 + d) % 2 ^ 32;
    }
    else record n { ndigit = ndigit; exp = if not n.isdecimal then increment n.exp else n.exp }

-- The loop: the number, and the characters from the first that is no part of it.
unfoldable pub scan : Number → List ℕ → Number × List ℕ
scan n [] = (n, [])
scan n (c ∷ cs) =
    let d = minus_char_zero c in
    let digit = scan (take_digit n d) cs in
    let point = scan (record n { isdecimal = true }) cs in
    if leb d 9
    then digit
    else if d == minus_char_zero b'.' && not n.isdecimal
    then point
    else (n, c ∷ cs)

-- The sign, and the characters behind it.
abbrev pub sign : List ℕ → Bool × List ℕ
sign [] = (false, [])
sign (c ∷ cs) = if c == b'-' then (true, cs) else if c == b'+' then (false, cs) else (false, c ∷ cs)

module _ (r : Real) where
  open r use {R, decimal, mul, neg, eq, of_nat}

  -- `while (exp <= -2) { fval *= 0.01; exp += 2; } if (exp < 0) { fval *= 0.1; }`, from `-exp`
  unfoldable pub scale_down : ℕ → R → R
  scale_down zero f = f
  scale_down (suc zero) f = mul f (decimal 1 1)
  scale_down (suc (suc k)) f = scale_down k (mul f (decimal 1 2))

  -- `do { fval *= 10.0; } while (--exp > 0);`, for a positive `exp`
  unfoldable pub scale_up : ℕ → R → R
  scale_up zero f = f
  scale_up (suc k) f = scale_up k (mul f (decimal 10 0))

  unfoldable pub apply_exp : ℤ → R → R
  unfolding scale_down scale_up
  apply_exp (pos k) f = scale_up k f
  apply_exp (negsuc k) f = scale_down (suc k) f

  -- `none` if there is no digit; else the value, and the line from the new `char_counter` on.
  unfoldable pub read_float : List ℕ → Option (R × List ℕ)
  read_float line =
      let (isnegative, unsigned) = sign line in
      let (n, rest) = scan start unsigned in
      let fval = of_nat n.intval in
      let scaled = if not (eq fval (decimal 0 0)) then apply_exp n.exp fval else fval in
      if n.ndigit == 0 then none else some (if isnegative then neg scaled else scaled, rest)
