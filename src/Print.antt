-- ===== src/Print.antt =====
-- common_src/print.c: numbers as text. Each function returns the bytes that it hands to
-- `serial_write`, in order. The digits are computed backwards into a buffer, whose cells are the
-- fuel of the loops: a write past its end is `none`.
pub mod Digits
pub mod Integers
use cpcbm.Base.{
  ℕ, zero, suc, ◌+◌, ◌-◌, ◌*◌, ◌/◌, ◌%◌, ◌^◌, Bool, true, false, List, [], ◌∷◌, ◌++◌, Option, none,
  some, ltb, ◌==◌, if◌then◌else◌, map,
}
use mathlib.Core.List.{reverse}

-- `'0' + d` as a byte
abbrev pub digit_char : ℕ → ℕ
digit_char d = (b'0' + d) % 256

-- The first loop of `print_unsigned_int8`: the lowest `digits` digits of `n`, lowest first.
unfoldable pub low_digits : ℕ → ℕ → ℕ → List ℕ
low_digits base zero n = []
low_digits base (suc digits) n = (n % base) ∷ low_digits base digits (n / base)

-- The second loop of each printer: from the last cell written down to the first.
abbrev pub send_backwards : List ℕ → List ℕ
send_backwards buf = map digit_char (reverse buf)

unfoldable pub print_unsigned_int8 : ℕ → ℕ → ℕ → List ℕ
print_unsigned_int8 n base digits = send_backwards (low_digits base digits n)

unfoldable pub print_uint8_base2 : ℕ → List ℕ
print_uint8_base2 n = print_unsigned_int8 n 2 8

unfoldable pub print_uint8_base10 : ℕ → List ℕ
print_uint8_base10 n =
    let digits : ℕ = if ltb n 10 then 1 else if ltb n 100 then 2 else 3 in
    print_unsigned_int8 n 10 digits

-- The loop of `print_uint32_base10` over a buffer with `cells` cells left.
unfoldable pub all_digits : ℕ → ℕ → Option (List ℕ)
all_digits zero n = if n == 0 then some [] else none
all_digits (suc cells) n = elim (n == 0) [
  | true ↦ some []
  | false ↦ elim (all_digits cells (n / 10)) [ none ↦ none | some ds ↦ some ((n % 10) ∷ ds) ]
]

unfoldable pub print_uint32_base10 : ℕ → Option (List ℕ)
print_uint32_base10 n =
    if n == 0
    then some (b'0' ∷ [])
    else elim (all_digits 10 n) [ none ↦ none | some buf ↦ some (send_backwards buf) ]

-- `printInteger` of a `long`, given by its 32 bits: `-n` is the two's complement.
unfoldable pub print_integer : ℕ → Option (List ℕ)
print_integer w =
    if ltb w (2 ^ 31)
    then print_uint32_base10 w
    else (elim (print_uint32_base10 ((2 ^ 32 - w) % 2 ^ 32)) [
      | none ↦ none
      | some bytes ↦ some (b'-' ∷ bytes)
    ])
