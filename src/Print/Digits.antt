-- ===== src/Print/Digits.antt =====
-- Reading digits back: the number that a text of digits stands for.
use cpcbm.Base.{
  ℕ, zero, suc, ◌+◌, ◌-◌, ◌*◌, ◌/◌, ◌%◌, ◌^◌, ◌≤◌, ◌<◌, ◌≡◌, ◌≢◌, refl, ap, ◌∙◌, List, [], ◌∷◌,
  ◌++◌, some, arith, length, length-append, map, Bool-cases, ◌==◌, inl, inr,
}
use native.Mathlib.Nat.{pow-suc, pow-zero, div-add-mod, div-lt_iff_lt-mul, mod-lt}
use mathlib.Core.List.{reverse, reverse-append, map-append}
use cpcbm.Print.{digit_char, low_digits, send_backwards, all_digits}

-- The number that a list of digits stands for, the lowest digit first.
abbrev pub low_value : ℕ → List ℕ → ℕ
low_value base [] = 0
low_value base (d ∷ ds) = d + base * low_value base ds

-- The number that a text of digits stands for, read from the left.
abbrev pub read_from : ℕ → ℕ → List ℕ → ℕ
read_from base acc [] = acc
read_from base acc (c ∷ cs) = read_from base (acc * base + (c - b'0')) cs

abbrev pub read_digits : ℕ → List ℕ → ℕ
read_digits base cs = read_from base 0 cs

abbrev pub All {ℓ κ} : {A : Type ℓ} → (A → Type κ) → List A → Type κ
All P [] = Unit
All P (x ∷ xs) = P x × All P xs

abbrev pub IsDigitChar : ℕ → ℕ → Type 0
IsDigitChar base c = (b'0' ≤ c) × (c < b'0' + base)

read_from-append :
    (base acc : ℕ) (xs ys : List ℕ)
    → read_from base acc (xs ++ ys) ≡ read_from base (read_from base acc xs) ys
read_from-append base acc [] ys = refl
read_from-append base acc (x ∷ xs) ys = read_from-append base (acc * base + (x - b'0')) xs ys

All-append {ℓ κ} :
    {A : Type ℓ} (P : A → Type κ) (xs ys : List A) → All P xs → All P ys → All P (xs ++ ys)
All-append P [] ys h k = k
All-append P (x ∷ xs) ys (p, h) k = (p, All-append P xs ys h k)

send_backwards-cons :
    (d : ℕ) (ds : List ℕ) → send_backwards (d ∷ ds) ≡ send_backwards ds ++ (digit_char d ∷ [])
send_backwards-cons d ds =
    ap (map digit_char) (reverse-append (d ∷ []) ds) ∙ map-append digit_char (reverse ds) (d ∷ [])

-- Sent backwards, digits are digit characters, and read back as the number that they stand for.
pub read_digits-send_backwards :
    (base : ℕ) (ds : List ℕ)
    → base ≤ 10
    → All (λ d. d < base) ds
    → (read_digits base (send_backwards ds) ≡ low_value base ds)
      × All (IsDigitChar base) (send_backwards ds)
read_digits-send_backwards base [] hb h = (refl, tt)
read_digits-send_backwards base (d ∷ ds) hb (p, h) =
    let ih = read_digits-send_backwards base ds hb h in
    (
      rw (send_backwards-cons, read_from-append, ih.0) (omega arith),
      rw send_backwards-cons (
          All-append (IsDigitChar base) (send_backwards ds) _ ih.1
            ((omega arith, omega arith), tt)),
    )

div-lt-pow : (n b k : ℕ) → 0 < b → n < b ^ suc k → n / b < b ^ k
div-lt-pow n b k hb h = (div-lt_iff_lt-mul hb).1 (rw pow-suc at h)

pub low_digits_lem :
    (base k n : ℕ)
    → 0 < base
    → n < base ^ k
    → (low_value base (low_digits base k n) ≡ n)
      × All (λ d. d < base) (low_digits base k n)
      × (length (low_digits base k n) ≡ k)
unfolding low_digits
low_digits_lem base zero n hb h = (omega (arith, pow-zero base), tt, refl)
low_digits_lem base (suc k) n hb h =
    let ih = low_digits_lem base k (n / base) hb (div-lt-pow n base k hb h) in
    (rw ih.0 (omega (arith, div-add-mod n base)), (mod-lt n hb, ih.1), ap suc ih.2)

-- The digits that a buffer of `cells` cells takes: they stand for `n`, and the highest is not zero.
pub record Digits (n cells : ℕ) : Type 0 where
  pub digits : List ℕ
  pub written : all_digits cells n ≡ some digits
  pub value : low_value 10 digits ≡ n
  pub small : All (λ d. d < 10) digits
  pub fits : length digits ≤ cells
  pub shortest : (k : ℕ) → length digits ≡ suc k → 10 ^ k ≤ n

-- A digit in front of a shortest text.
pow-le-div :
    (k n m : ℕ) → n ≢ 0 → suc m ≡ suc k → ((j : ℕ) → m ≡ suc j → 10 ^ j ≤ n / 10) → 10 ^ k ≤ n
pow-le-div zero n m ne e h = omega (arith, pow-zero 10)
pow-le-div (suc k) n m ne e h = omega (arith, pow-suc 10 k, h k (omega arith))

pub length-send_backwards : (ds : List ℕ) → length (send_backwards ds) ≡ length ds
length-send_backwards [] = refl
length-send_backwards (d ∷ ds) =
    rw send_backwards-cons (
      omega
        (arith, length-append (send_backwards ds) (digit_char d ∷ []), length-send_backwards ds))

pub all_digits_lem : (cells n : ℕ) → n < 10 ^ cells → Digits n cells
unfolding all_digits
all_digits_lem zero n h = record {
  digits = [];
  written = (ground arith);
  value = (omega arith);
  small = tt;
  fits = omega arith;
  shortest = λ k e. absurd (omega arith);
}
all_digits_lem (suc cells) n h = elim (Bool-cases (n == 0)) [
  | inl e ↦ record {
    digits = [];
    written = rw (e, all_digits);
    value = ground arith;
    small = tt;
    fits = omega arith;
    shortest = λ k e'. absurd (omega arith);
  }
  | inr e ↦
      let r = all_digits_lem cells (n / 10) (div-lt-pow n 10 cells (omega arith) h) in
      record {
        digits = (n % 10) ∷ r.digits;
        written = rw (e, all_digits) (rw r.written);
        value = rw r.value (omega arith);
        small = (omega arith, r.small);
        fits = omega (arith, r.fits);
        shortest = λ k l. pow-le-div k n _ (ground arith) l r.shortest;
      }
]
