-- ===== src/Print/Integers.antt =====
-- What the integer printers put out reads back as the number printed.
use cpcbm.Base.{
  ℕ, suc, ◌-◌, ◌%◌, ◌^◌, ◌≤◌, ◌<◌, ◌≡◌, ◌≢◌, sym, ◌∙◌, List, [], ◌∷◌, some, arith, length,
  Bool-cases, ◌==◌, inl, inr, ltb, if◌then◌else◌,
}
use cpcbm.Print.Digits.{
  read_digits, All, IsDigitChar, low_digits_lem, read_digits-send_backwards, length-send_backwards,
  all_digits_lem,
}
use cpcbm.Print.{
  print_unsigned_int8, print_uint8_base2, print_uint8_base10, print_uint32_base10, print_integer,
  low_digits, send_backwards,
}

-- A text of digits in `base` that reads as `n`.
pub record Reads (base n : ℕ) (bytes : List ℕ) : Type 0 where
  pub value : read_digits base bytes ≡ n
  pub chars : All (IsDigitChar base) bytes

pub print_unsigned_int8_lem :
    (n base digits : ℕ)
    → 0 < base
    → base ≤ 10
    → n < base ^ digits
    → Reads base n (print_unsigned_int8 n base digits)
      × (length (print_unsigned_int8 n base digits) ≡ digits)
unfolding print_unsigned_int8
print_unsigned_int8_lem n base digits hb hs h =
    let (v, small, l) = low_digits_lem base digits n hb h in
    let (r, c) = read_digits-send_backwards base (low_digits base digits n) hs small in
    (record { value = r ∙ v; chars = c }, length-send_backwards (low_digits base digits n) ∙ l)

-- A byte printed in base 2 is eight binary digits that read back as the byte. Printed in base 10 it
-- is one decimal digit below ten, two below a hundred and three else, that read back as the byte.
pub print_uint8_lem :
    (n : ℕ)
    → n < 256
    → Reads 2 n (print_uint8_base2 n)
      × (length (print_uint8_base2 n) ≡ 8)
      × Reads 10 n (print_uint8_base10 n)
      × (length (print_uint8_base10 n) ≡ (if ltb n 10 then 1 else if ltb n 100 then 2 else 3))
unfolding print_uint8_base2 print_uint8_base10
print_uint8_lem n h = (two.0, two.1, ten.0, ten.1)
  where
    two : Reads 2 n (print_unsigned_int8 n 2 8) × (length (print_unsigned_int8 n 2 8) ≡ 8)
    two = print_unsigned_int8_lem n 2 8 (omega arith) (omega arith) (omega arith)

    digits : ℕ
    digits = if ltb n 10 then 1 else if ltb n 100 then 2 else 3

    ten :
        Reads 10 n (print_unsigned_int8 n 10 digits)
        × (length (print_unsigned_int8 n 10 digits) ≡ digits)
    ten = print_unsigned_int8_lem n 10 digits (omega arith) (omega arith) (ground arith)

-- The text that `print_uint32_base10` prints of `n`, and what is known of it.
pub record Printed (n : ℕ) : Type 0 where
  pub bytes : List ℕ
  pub printed : print_uint32_base10 n ≡ some bytes
  pub reads : Reads 10 n bytes
  pub within : length bytes ≤ 10
  pub shortest : (k : ℕ) → n ≢ 0 → length bytes ≡ suc k → 10 ^ k ≤ n

-- A 32-bit number is printed within the buffer's ten cells, in decimal digits that read back as
-- the number, and not zero with more digits than it needs.
pub print_uint32_base10_lem : (n : ℕ) → n < 2 ^ 32 → Printed n
unfolding print_uint32_base10
print_uint32_base10_lem n h = elim (Bool-cases (n == 0)) [
  | inl e ↦ record {
    bytes = b'0' ∷ [];
    printed = rw e;
    reads = record { value = ground arith; chars = (omega arith, tt) };
    within = omega arith;
    shortest = λ k ne l. absurd (ne (ground arith));
  }
  | inr e ↦
      let d = all_digits_lem 10 n (omega arith) in
      let (r, c) = read_digits-send_backwards 10 d.digits (omega arith) d.small in
      record {
        bytes = send_backwards d.digits;
        printed = rw (e, d.written);
        reads = record { value = r ∙ d.value; chars = c };
        within = omega (arith, length-send_backwards d.digits, d.fits);
        shortest = λ k ne l. d.shortest k (sym (length-send_backwards d.digits) ∙ l);
      }
]

-- A 32-bit pattern printed as a signed number: without a sign, digits that read as the number if
-- it is not negative, and else a minus sign and digits that read as its absolute value, for the
-- least number too.
pub print_integer_lem :
    (w : ℕ)
    → w < 2 ^ 32
    → (bytes : List ℕ) × (print_integer w ≡ some (if ltb w (2 ^ 31) then bytes else b'-' ∷ bytes))
      × Reads 10 (if ltb w (2 ^ 31) then w else 2 ^ 32 - w) bytes
unfolding print_integer
print_integer_lem w h = elim (Bool-cases (ltb w (2 ^ 31))) [
  | inl e ↦ let p = print_uint32_base10_lem w h in (p.bytes, rw e p.printed, rw e p.reads)
  | inr e ↦
      let p = print_uint32_base10_lem (2 ^ 32 - w) (ground arith) in
      let same : (2 ^ 32 - w) % 2 ^ 32 ≡ 2 ^ 32 - w = ground arith in
      (p.bytes, rw (e, same, p.printed), rw e p.reads)
]
