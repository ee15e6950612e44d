-- ===== src/Tests/Text.antt =====
-- The line editor, the printers and `read_float` on concrete texts.
use cpcbm.Base.{
  ℕ, zero, suc, ◌-◌, ◌^◌, ◌≡◌, refl, ◌++◌, true, List, [], ◌∷◌, some, arith, replicate, ltb,
  if◌then◌else◌,
}
use cpcbm.Protocol.{no_comment, Editor, execute, overflow, read_chars}
use cpcbm.Protocol.Clean.{clean, IsOneLine}
use cpcbm.Protocol.Line.{Holds, read_chars_line, read_chars_overflow}
use cpcbm.Print.{print_integer}
use cpcbm.Print.Integers.{Reads, print_integer_lem}
use cpcbm.NutsBolts.{read_float, scan, apply_exp}
use cpcbm.NutsBolts.ReadFloat.{scaled, read_float_decimal}
use cpcbm.Base.Int.{negsuc}
use cpcbm.Tests.Fixed.{fixed}

abbrev editor : Editor
editor = record { line = replicate 80 0; char_counter = 0; comment = no_comment }

editor-Holds : Holds editor []
editor-Holds = record { storage = refl; counter = refl; room = omega arith; cells = tt }

-- `g1 (up) x2`
abbrev raw : List ℕ
raw = b'g' ∷ b'1' ∷ b' ' ∷ b'(' ∷ b'u' ∷ b'p' ∷ b')' ∷ b' ' ∷ b'x' ∷ b'2' ∷ []

clean_test : clean raw ≡ b'G' ∷ b'1' ∷ b'X' ∷ b'2' ∷ []
clean_test = refl

raw-IsOneLine : IsOneLine raw
raw-IsOneLine = (refl, (refl, (refl, (refl, (refl, (refl, (refl, (refl, (refl, (refl, tt))))))))))

read_chars_line_example :
    (out : Editor) × ((read_chars editor (raw ++ (b'\n' ∷ []))).1
      ≡ execute (clean raw) ∷ (read_chars out []).1)
    × (out.comment ≡ no_comment)
    × Holds out []
read_chars_line_example =
    read_chars_line editor raw b'\n' [] refl editor-Holds raw-IsOneLine refl (omega arith)

ones-IsOneLine : (n : ℕ) → IsOneLine (replicate n b'1')
ones-IsOneLine zero = tt
ones-IsOneLine (suc n) = (refl, ones-IsOneLine n)

read_chars_overflow_example :
    (out : Editor) × ((read_chars editor (replicate 79 b'1' ++ (b'2' ∷ []))).1
      ≡ overflow ∷ (read_chars out []).1)
    × (out.comment ≡ no_comment)
    × Holds out []
read_chars_overflow_example =
    read_chars_overflow editor (replicate 79 b'1') b'2' [] refl editor-Holds (ones-IsOneLine 79)
      refl refl refl

-- -1
print_integer_lem_example :
    (bytes : List ℕ) × (print_integer (2 ^ 32 - 1)
      ≡ some (if ltb (2 ^ 32 - 1) (2 ^ 31) then bytes else b'-' ∷ bytes))
    × Reads 10 (if ltb (2 ^ 32 - 1) (2 ^ 31) then 2 ^ 32 - 1 else 2 ^ 32 - (2 ^ 32 - 1)) bytes
print_integer_lem_example = print_integer_lem (2 ^ 32 - 1) (omega arith)

-- `-12.5X`
read_float_test :
    read_float fixed (b'-' ∷ b'1' ∷ b'2' ∷ b'.' ∷ b'5' ∷ b'X' ∷ []) ≡ some (negsuc 12499, b'X' ∷ [])
unfolding read_float scan apply_exp
read_float_test = refl

read_float_decimal_example :
    read_float fixed (b'-' ∷ b'1' ∷ b'2' ∷ b'.' ∷ b'5' ∷ b'X' ∷ [])
    ≡ some (fixed.neg (scaled fixed 125 1), b'X' ∷ [])
read_float_decimal_example =
    read_float_decimal fixed true (b'1' ∷ b'2' ∷ []) (b'5' ∷ []) (b'X' ∷ [])
      ((omega arith, omega arith), ((omega arith, omega arith), tt))
      ((omega arith, omega arith), tt) (omega arith) (omega arith) (refl, refl)
