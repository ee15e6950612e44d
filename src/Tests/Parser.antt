-- ===== src/Tests/Parser.antt =====
-- Blocks of g-code, with numbers in thousandths.
use cpcbm.Base.{◌==◌, ℕ, ◌≡◌, refl, ◌⊎◌, true, false, List, [], ◌∷◌, some}
use cpcbm.Base.Int.{pos}
use cpcbm.Base.Bits.{with_bit, no_bits}
use cpcbm.GCode.Word
use cpcbm.GCode.Parse.{take_word, parse_line, parse_words, value_word, value_letter, claim_word}
use cpcbm.NutsBolts.{read_float, scan, apply_exp}
use cpcbm.GCode.Words.{g_command, g_word, claim_group, non_modal_word, motion_word}
use cpcbm.GCode.Check.Whole.{check_block, check_modes}
use cpcbm.GCode.Check.{
  check_feed_rate, check_line_number, implicit_command, check_dwell, keep_spindle_speed,
  check_tool_length, convert_units, block_coord_system,
}
use cpcbm.GCode.Check.Target.{Located, check_non_modal}
use cpcbm.GCode.Check.Arc.{check_motion, check_feed_motion}
use cpcbm.GCode.Execute.{World, execute_block}
use cpcbm.GCode.Line.Position.{follow, execute_block-follow}
use cpcbm.GCode.Line.{finish_block, gc_execute_line}
use cpcbm.GCode.Line.Groups.{g_numbers, m_numbers, ClaimsGroup, ClaimsWord, take_word-claims}
use cpcbm.GCode.{
  undefined_feed_rate, pass, motion_mode, linear, units_per_min, mm, absolute, xy, cancel, running,
  spindle_disable, coolant_disable, Modal, Parser, Block, zero_vec, new_block,
}
use cpcbm.Tests.Fixed.{fixed}

abbrev pub modes : Modal
modes = record {
  motion = linear;
  feed_rate = units_per_min;
  units = mm;
  distance = absolute;
  plane_select = xy;
  tool_length = cancel;
  coord_select = 0;
  program_flow = running;
  coolant = coolant_disable;
  spindle = spindle_disable;
}

abbrev parser : Parser fixed
parser = record {
  modal = modes;
  spindle_speed = pos 0;
  feed_rate = pos 0;
  tool = 0;
  line_number = 0;
  position = zero_vec fixed;
  coord_system = zero_vec fixed;
  coord_offset = zero_vec fixed;
  tool_length_offset = pos 0;
}

abbrev world : World fixed
world = record { check_mode = false; read_coord = λ _. some (zero_vec fixed); probed = λ v. v }

-- `G1X1`, without a feed rate
abbrev no_feed : List ℕ
no_feed = b'G' ∷ b'1' ∷ b'X' ∷ b'1' ∷ []

no_feed_test :
    gc_execute_line fixed world parser no_feed
    ≡ some (undefined_feed_rate, record { st = parser; calls = [] })
unfolding gc_execute_line parse_line parse_words read_float scan take_word g_command g_word
    apply_exp claim_group value_word value_letter claim_word check_block check_modes
    check_line_number implicit_command check_feed_rate non_modal_word motion_word finish_block
    check_dwell keep_spindle_speed check_tool_length convert_units block_coord_system
    check_non_modal check_motion check_feed_motion
no_feed_test = refl

abbrev block : Block fixed
block = new_block fixed parser

-- `X1`
abbrev moved : Block fixed
moved = record block {
  values = record (block.values) { xyz = record (zero_vec fixed) { x = pos 1000 } };
  axis_words = with_bit 0 no_bits;
  value_words = with_bit Word.x no_bits;
}

moved_test : take_word fixed block b'X' (pos 1000) ≡ pass moved
unfolding take_word value_word value_letter claim_word
moved_test = refl

take_word-claims_example :
    (((b'X' == b'G') ≡ true) × ClaimsGroup fixed g_numbers (fixed.trunc_u8 (pos 1000)) block moved)
    ⊎ (((b'X' == b'M') ≡ true)
        × ClaimsGroup fixed m_numbers (fixed.trunc_u8 (pos 1000)) block moved)
    ⊎ ClaimsWord fixed b'X' (pos 1000) block moved
take_word-claims_example = take_word-claims fixed block b'X' (pos 1000) moved_test

-- `G1X1F100`,
abbrev feeding : Block fixed
feeding = record moved {
  values = record (moved.values) { f = pos 100000 };
  axis_command = motion_mode;
}

feeding_test : check_motion fixed parser feeding ≡ pass feeding
unfolding check_motion check_feed_motion
feeding_test = refl

abbrev spot : Located fixed
spot = record {
  block = feeding;
  coord_select = 0;
  coordinate_data = zero_vec fixed;
  parameter_data = zero_vec fixed;
}

execute_block-follow_example :
    (execute_block fixed world spot parser).1.st.position
    ≡ follow fixed world (zero_vec fixed) (execute_block fixed world spot parser).1.calls
execute_block-follow_example = execute_block-follow fixed world spot parser
