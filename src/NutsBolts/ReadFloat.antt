-- ===== src/NutsBolts/ReadFloat.antt =====
-- `read_float` on a decimal number of up to eight digits.
use cpcbm.Base.{
  ℕ, zero, suc, ◌+◌, ◌/◌, ◌%◌, ◌≤◌, ◌<◌, ◌≡◌, refl, Bool, true, false, not, List, [], ◌∷◌, ◌++◌,
  some, arith, length, ◌==◌, if◌then◌else◌,
}
use cpcbm.Base.Real.{Real}
use cpcbm.Print.Digits.{All, IsDigitChar, read_from, read_digits}
use cpcbm.NutsBolts.{sign, scale_down, apply_exp, read_float}
use cpcbm.NutsBolts.Scan.{Ends, minus, scan_decimal}

abbrev pub body : List ℕ → List ℕ → List ℕ → List ℕ
body ds es rest = ds ++ (b'.' ∷ (es ++ rest))

sign-body :
    (ds es rest : List ℕ)
    → All (IsDigitChar 10) ds
    → sign (body ds es rest) ≡ (false, body ds es rest)
sign-body [] es rest h = refl
sign-body (d ∷ ds) es rest (h, hs) = ground arith

module _ (r : Real) where
  open r use {R, decimal, mul, neg, eq, of_nat}

  -- Multiplied `n` times by 0.01.
  abbrev pub hundredths : ℕ → R → R
  hundredths zero f = f
  hundredths (suc n) f = hundredths n (mul f (decimal 1 2))

  -- `k` decimal places down: a factor 0.01 for every two of them, and 0.1 for the one that is left.
  abbrev pub places_down : ℕ → R → R
  places_down k f =
      if k % 2 == 0 then hundredths (k / 2) f else mul (hundredths (k / 2) f) (decimal 1 1)

  scale_down-places_down : (k : ℕ) (f : R) → scale_down r k f ≡ places_down k f
  unfolding scale_down
  scale_down-places_down zero f = refl
  scale_down-places_down (suc zero) f = refl
  scale_down-places_down (suc (suc k)) f =
      let half : (suc (suc k)) / 2 ≡ suc (k / 2) = omega arith in
      let parity : (suc (suc k)) % 2 ≡ k % 2 = omega arith in
      rw (half, parity) (scale_down-places_down k (mul f (decimal 1 2)))

  apply_exp-minus : (j : ℕ) (f : R) → apply_exp r (minus j) f ≡ places_down j f
  unfolding apply_exp
  apply_exp-minus zero f = refl
  apply_exp-minus (suc j) f = scale_down-places_down (suc j) f

  -- The integer `n` with `k` decimals; zero is not scaled.
  abbrev pub scaled : ℕ → ℕ → R
  scaled n k = if not (eq (of_nat n) (decimal 0 0)) then places_down k (of_nat n) else of_nat n

  -- A number written with an optional minus sign, digits, a point and digits, one to eight in all,
  -- is read as the integer of its digits, multiplied by 0.01 for every two decimals and by 0.1 for the
  -- one that is left unless it is zero, with its sign; the counter then stands at the first character
  -- behind the number.
  pub read_float_decimal :
      (negative : Bool) (ds es rest : List ℕ)
      → All (IsDigitChar 10) ds
      → All (IsDigitChar 10) es
      → 0 < length ds + length es
      → length ds + length es ≤ 8
      → Ends rest
      → read_float r (if negative then b'-' ∷ body ds es rest else body ds es rest)
        ≡ some (
          (if negative
              then neg (scaled (read_from 10 (read_digits 10 ds) es) (length es))
              else scaled (read_from 10 (read_digits 10 ds) es) (length es)),
          rest,
        )
  unfolding read_float
  read_float_decimal true ds es rest hd he some_digit l h =
      rw (scan_decimal ds es rest hd he l h, apply_exp-minus, nonzero) refl
    where
      nonzero : (length ds + length es == 0) ≡ false
      nonzero = ground arith
  read_float_decimal false ds es rest hd he some_digit l h =
      rw (sign-body ds es rest hd, scan_decimal ds es rest hd he l h, apply_exp-minus, nonzero) refl
    where
      nonzero : (length ds + length es == 0) ≡ false
      nonzero = ground arith
