-- ===== src/GCode/Check/Whole.antt =====
-- Step 3 of `gc_execute_line` as a whole.
use cpcbm.Base.{ℕ, [], ◌∷◌, Option, if◌then◌else◌}
use cpcbm.Base.Bits.{Bits, without_bits, any_bit}
use cpcbm.Base.Real.{Real, Vec}
use cpcbm.GCode.Word
use cpcbm.GCode.Words.{has_command}
use cpcbm.GCode.Check.{
  implicit_command, check_line_number, check_feed_rate, keep_spindle_speed, check_dwell,
  convert_units, check_tool_length, block_coord_system,
}
use cpcbm.GCode.Check.Target.{Located, check_non_modal}
use cpcbm.GCode.Check.Arc.{check_motion}
use cpcbm.GCode.{unused_words, Result, pass, fail, ◌>>=◌, Parser, Block}

module _ (real : Real) where
  open real use {R}

  -- [0] The words that have not been used.
  abbrev pub unused : Block real → Bits
  unused b =
      let rest = without_bits (Word.n ∷ Word.f ∷ Word.s ∷ Word.t ∷ []) b.value_words in
      if has_command b.axis_command then without_bits (Word.x ∷ Word.y ∷ Word.z ∷ []) rest else rest

  unfoldable pub check_unused : Block real → Result (Block real)
  check_unused b = if any_bit 13 (unused b) then fail unused_words else pass b

  -- The steps up to [19] that do not read the stored coordinate data.
  unfoldable pub check_modes : Parser real → Block real → Result (Block real)
  check_modes st b = do
    b1 ← check_line_number real (implicit_command real b)
    b2 ← check_feed_rate real st b1
    b3 ← check_dwell real (keep_spindle_speed real st b2)
    check_tool_length real (convert_units real b3)

  unfoldable pub check_block :
      (ℕ → Option (Vec R)) → Parser real → Block real → Result (Located real)
  check_block read_coord st b = do
    b1 ← check_modes st b
    coordinate_data ← block_coord_system real read_coord st b1
    located ← check_non_modal real read_coord st b1 coordinate_data
    b2 ← check_motion real st located.block
    b3 ← check_unused b2
    pass (record located { block = b3 })
