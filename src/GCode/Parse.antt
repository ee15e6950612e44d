-- ===== src/GCode/Parse.antt =====
-- Step 2 of `gc_execute_line`: the value words, and the loop over the words of a line.
use cpcbm.Base.{
  ℕ, zero, suc, Bool, ◌&&◌, ◌||◌, List, [], ◌∷◌, Option, none, some, ltb, ◌==◌, if◌then◌else◌,
  length,
}
use cpcbm.Base.Bits.{with_bit}
use cpcbm.Base.Real.{Real, Axis, x_axis, y_axis, z_axis, put}
use cpcbm.NutsBolts.{read_float}
use cpcbm.GCode.Word
use cpcbm.GCode.Words.{g_command, m_command}
use cpcbm.GCode.{
  expected_command_letter, bad_number_format, negative_value, unsupported_command, word_repeated,
  Result, pass, fail, read_fails, ◌>>=◌, Block, Values,
}

abbrev pub axis_bit : Axis → ℕ
axis_bit x_axis = 0
axis_bit y_axis = 1
axis_bit z_axis = 2

module _ (real : Real) where
  open real use {R, decimal, sub, mul, lt, trunc_u8, trunc_i32, round_u16, of_nat}

  abbrev set_values : Block real → Values real → Block real
  set_values b v = record b { values = v }

  abbrev set_xyz : Block real → Axis → R → Block real
  set_xyz b a value = record b {
    values = record (b.values) { xyz = put b.values.xyz a value };
    axis_words = with_bit (axis_bit a) b.axis_words;
  }

  abbrev set_ijk : Block real → Axis → R → Block real
  set_ijk b a value = record b {
    values = record (b.values) { ijk = put b.values.ijk a value };
    ijk_words = with_bit (axis_bit a) b.ijk_words;
  }

  -- The switch on the letter of a value word: the block, and `word_bit`. The tool number of a T word
  -- is not stored.
  unfoldable pub value_letter : Block real → ℕ → R → ℕ → Result (Block real × ℕ)
  value_letter b letter value int_value =
      if letter == b'F'
      then pass (set_values b (record (b.values) { f = value }), Word.f)
      else if letter == b'I'
      then pass (set_ijk b x_axis value, Word.i)
      else if letter == b'J'
      then pass (set_ijk b y_axis value, Word.j)
      else if letter == b'K'
      then pass (set_ijk b z_axis value, Word.k)
      else if letter == b'L'
      then pass (set_values b (record (b.values) { l = int_value }), Word.l)
      else if letter == b'N'
      then pass (set_values b (record (b.values) { n = trunc_i32 value }), Word.n)
      else if letter == b'P'
      then pass (set_values b (record (b.values) { p = value }), Word.p)
      else if letter == b'R'
      then pass (set_values b (record (b.values) { r = value }), Word.r)
      else if letter == b'S'
      then pass (set_values b (record (b.values) { s = value }), Word.s)
      else if letter == b'T'
      then pass (b, Word.t)
      else if letter == b'X'
      then pass (set_xyz b x_axis value, Word.x)
      else if letter == b'Y'
      then pass (set_xyz b y_axis value, Word.y)
      else if letter == b'Z'
      then pass (set_xyz b z_axis value, Word.z)
      else fail unsupported_command

  -- F, N, P, T and S take no negative value.
  abbrev pub is_unsigned : ℕ → Bool
  is_unsigned w = w == Word.f || w == Word.n || w == Word.p || w == Word.t || w == Word.s

  -- The checks for a repeated word and for a negative value, and the word's flag.
  unfoldable pub claim_word : Block real → ℕ → R → Result (Block real)
  claim_word b word_bit value =
      if b.value_words word_bit
      then fail word_repeated
      else if is_unsigned word_bit && lt value (decimal 0 0)
      then fail negative_value
      else pass (record b { value_words = with_bit word_bit b.value_words })

  unfoldable pub value_word : Block real → ℕ → R → ℕ → Result (Block real)
  value_word b letter value int_value = do
    w ← value_letter b letter value int_value
    claim_word w.0 w.1 value

  -- The body of the loop behind `read_float`.
  unfoldable pub take_word : Block real → ℕ → R → Result (Block real)
  take_word b letter value =
      let int_value = trunc_u8 value in
      let mantissa = round_u16 (mul (decimal 100 0) (sub value (of_nat int_value))) in
      if letter == b'G'
      then g_command real b int_value mantissa
      else if letter == b'M'
      then m_command real b int_value mantissa
      else value_word b letter value int_value

  -- The loop, on fuel: `none` if the fuel runs out.
  unfoldable pub parse_words : ℕ → Block real → List ℕ → Option (Result (Block real))
  parse_words zero b line = none
  parse_words (suc fuel) b [] = some (pass b)
  parse_words (suc fuel) b (letter ∷ line) =
      if ltb letter b'A' || ltb b'Z' letter
      then some (fail expected_command_letter)
      else (elim (read_float real line) [
        | none ↦ some (fail bad_number_format)
        | some (value, rest) ↦ elim (take_word b letter value) [
          | fail e ↦ some (fail e)
          | read_fails i ↦ some (read_fails i)
          | pass b' ↦ parse_words fuel b' rest
        ]
      ])

  -- A word takes at least its letter from the line.
  unfoldable pub parse_line : Block real → List ℕ → Option (Result (Block real))
  parse_line b line = parse_words (suc (length line)) b line
