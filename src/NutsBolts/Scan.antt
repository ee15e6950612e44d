-- ===== src/NutsBolts/Scan.antt =====
-- The digit loop of `read_float` reads a decimal number exactly, up to eight digits.
use cpcbm.Base.{
  ℕ, zero, suc, ◌+◌, ◌-◌, ◌*◌, ◌^◌, ◌≤◌, ◌<◌, ◌≡◌, refl, ap, ap₂, subst, ◌∙◌, leb→le, Bool, true,
  false, List, [], ◌∷◌, ◌++◌, arith, length, leb, ◌==◌, if◌then◌else◌,
}
use native.Mathlib.Nat.{pow-suc, add-zero}
use native.Mathlib.Numerals.{add-one}
use cpcbm.Base.Table.{holds_under, holds_under_lem}
use cpcbm.Base.Int.{ℤ, pos, negsuc, decrement}
use cpcbm.Print.Digits.{All, IsDigitChar, read_from, read_digits}
use cpcbm.NutsBolts.{Number, start, minus_char_zero, take_digit, scan}

-- No part of a number: neither a digit nor a point.
abbrev pub Ends : List ℕ → Type 0
Ends [] = Unit
Ends (c ∷ cs) =
    (leb (minus_char_zero c) 9 ≡ false) × ((minus_char_zero c == minus_char_zero b'.') ≡ false)

-- The exponent after `k` decimals.
abbrev pub minus : ℕ → ℤ
minus zero = pos 0
minus (suc k) = negsuc k

decrement-minus : (j : ℕ) → decrement (minus j) ≡ minus (suc j)
decrement-minus zero = refl
decrement-minus (suc j) = refl

ten_pow_table : holds_under (λ k. leb (10 ^ k) (10 ^ 7)) 8 ≡ true
unfolding holds_under
ten_pow_table = refl

ten_pow_le : (k : ℕ) → k < 8 → 10 ^ k ≤ 10 ^ 7
ten_pow_le k h = leb→le _ _ (holds_under_lem (λ j. leb (10 ^ j) (10 ^ 7)) 8 k h ten_pow_table)

abbrev pub number : ℕ → ℤ → ℕ → Bool → Number
number v x k f = record { intval = v; exp = x; ndigit = k; isdecimal = f }

-- One of the first eight digits.
scan-digit :
    (f : Bool) (x : ℤ) (v k d : ℕ) (cs : List ℕ)
    → IsDigitChar 10 d
    → k < 8
    → v < 10 ^ k
    → scan (number v x k f) (d ∷ cs)
      ≡ scan (number (v * 10 + (d - b'0')) (if f then decrement x else x) (k + 1) f) cs
unfolding scan
scan-digit f x v k d cs h l b = rw (digit, take) refl
  where
    digit : leb (minus_char_zero d) 9 ≡ true
    digit = ground arith

    bound : v < 10 ^ 7
    bound = omega (arith, ten_pow_le k l)

    take :
        take_digit (number v x k f) (minus_char_zero d)
        ≡ number (v * 10 + (d - b'0')) (if f then decrement x else x) (k + 1) f
    take = ground (arith, bound)

next-bound : (v k d : ℕ) → IsDigitChar 10 d → v < 10 ^ k → v * 10 + (d - b'0') < 10 ^ (k + 1)
next-bound v k d h b = rw (add-one k, pow-suc) (omega arith)

read_from-bound :
    (ds : List ℕ) (v k : ℕ)
    → All (IsDigitChar 10) ds
    → v < 10 ^ k
    → read_from 10 v ds < 10 ^ (k + length ds)
read_from-bound [] v k h b = rw add-zero b
read_from-bound (d ∷ ds) v k (h, hs) b =
    subst (λ j. read_from 10 (v * 10 + (d - b'0')) ds < 10 ^ j) (omega arith)
      (read_from-bound ds (v * 10 + (d - b'0')) (k + 1) hs (next-bound v k d h b))

-- The integer digits.
scan-integer :
    (ds rest : List ℕ) (v k : ℕ)
    → All (IsDigitChar 10) ds
    → k + length ds ≤ 8
    → v < 10 ^ k
    → scan (number v (pos 0) k false) (ds ++ rest)
      ≡ scan (number (read_from 10 v ds) (pos 0) (k + length ds) false) rest
scan-integer [] rest v k h l b = ap (λ j. scan (number v (pos 0) j false) rest) (omega arith)
scan-integer (d ∷ ds) rest v k (h, hs) l b =
    scan-digit false (pos 0) v k d (ds ++ rest) h (omega arith) b
    ∙ scan-integer ds rest (v * 10 + (d - b'0')) (k + 1) hs (omega arith) (next-bound v k d h b)
    ∙ ap (λ j. scan (number (read_from 10 (v * 10 + (d - b'0')) ds) (pos 0) j false) rest)
        (omega arith)

-- The decimals.
scan-decimals :
    (es rest : List ℕ) (v j k : ℕ)
    → All (IsDigitChar 10) es
    → k + length es ≤ 8
    → v < 10 ^ k
    → scan (number v (minus j) k true) (es ++ rest)
      ≡ scan (number (read_from 10 v es) (minus (j + length es)) (k + length es) true) rest
scan-decimals [] rest v j k h l b =
    ap₂ (λ i m. scan (number v (minus i) m true) rest) (omega arith) (omega arith)
scan-decimals (d ∷ es) rest v j k (h, hs) l b =
    scan-digit true (minus j) v k d (es ++ rest) h (omega arith) b
    ∙ ap (λ x. scan (number (v * 10 + (d - b'0')) x (k + 1) true) (es ++ rest)) (decrement-minus j)
    ∙ scan-decimals es rest (v * 10 + (d - b'0')) (suc j) (k + 1) hs (omega arith)
        (next-bound v k d h b)
    ∙ ap₂ (λ i m. scan (number (read_from 10 (v * 10 + (d - b'0')) es) (minus i) m true) rest)
        (omega arith) (omega arith)

-- The point.
scan-point :
    (v k : ℕ) (cs : List ℕ)
    → scan (number v (pos 0) k false) (b'.' ∷ cs) ≡ scan (number v (pos 0) k true) cs
unfolding scan
scan-point v k cs = refl

scan-end : (n : Number) (rest : List ℕ) → Ends rest → scan n rest ≡ (n, rest)
unfolding scan
scan-end n [] h = refl
scan-end n (c ∷ cs) h = rw (h.0, h.1)

-- Digits, a point and digits, at most eight in all: the loop reads the exact integer that the
-- digits stand for without the point, the exponent is minus the number of decimals, and what is
-- left is what follows the number.
pub scan_decimal :
    (ds es rest : List ℕ)
    → All (IsDigitChar 10) ds
    → All (IsDigitChar 10) es
    → length ds + length es ≤ 8
    → Ends rest
    → scan start (ds ++ (b'.' ∷ (es ++ rest))) ≡ (
      number (read_from 10 (read_digits 10 ds) es) (minus (length es)) (length ds + length es) true,
      rest,
    )
scan_decimal ds es rest hd he l h =
    scan-integer ds (b'.' ∷ (es ++ rest)) 0 0 hd (omega arith) (omega arith)
    ∙ scan-point (read_digits 10 ds) (0 + length ds) (es ++ rest)
    ∙ scan-decimals es rest (read_digits 10 ds) 0 (0 + length ds) he (omega arith)
        (read_from-bound ds 0 0 hd (omega arith))
    ∙ scan-end _ rest h
    ∙ ap₂ (λ i m. (number (read_from 10 (read_digits 10 ds) es) (minus i) m true, rest))
        (omega arith) (omega arith)
