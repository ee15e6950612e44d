-- ===== src/GCode/Words.antt =====
-- Step 2 of `gc_execute_line`: the words of a line, with the checks for modal groups, repeated words
-- and negative values.
use cpcbm.Base.{ℕ, ◌-◌, Bool, true, false, not, ◌&&◌, ◌||◌, leb, ◌==◌, if◌then◌else◌}
use cpcbm.Base.Bits.{with_bit}
use cpcbm.Base.Real.{Real}
use cpcbm.GCode.Group
use cpcbm.GCode.{
  unsupported_command, modal_group_violation, command_value_not_integer, axis_command_conflict,
  Result, pass, fail, ◌>>=◌, AxisCommand, no_command, non_modal, motion_mode, tool_length_offset,
  NonModal, dwell, set_coordinate_data, go_home_0, set_home_0, go_home_1, set_home_1,
  absolute_override, set_coordinate_offset, reset_coordinate_offset, Motion, seek, linear, cw_arc,
  ccw_arc, probe_toward, probe_toward_no_error, probe_away, probe_away_no_error, motion_none,
  units_per_min, inverse_time, mm, inches, absolute, incremental, xy, zx, yz, cancel,
  enable_dynamic, paused, completed, spindle_disable, spindle_cw, spindle_ccw, coolant_disable,
  coolant_flood, Modal, Block,
}

abbrev pub has_command : AxisCommand → Bool
has_command no_command = false
has_command _ = true

-- What a command word leaves in `word_bit` and `mantissa`, beside the block.
abbrev pub Commanded : Real → Type 0
Commanded real = Block real × ℕ × ℕ

module _ (real : Real) where
  open real use {R, decimal, sub, mul, lt, trunc_u8, trunc_i32, round_u16, of_nat}

  -- The block with one of its modes set.
  abbrev set_modal : Block real → Modal → Block real
  set_modal b m = record b { modal = m }

  abbrev set_non_modal : Block real → NonModal → Block real
  set_non_modal b c = record b { non_modal_command = c }

  abbrev set_motion : Block real → Motion → Block real
  set_motion b m = set_modal b (record (b.modal) { motion = m })

  -- G28, G30 and G92, with their `.1` forms.
  abbrev point_one : Block real → NonModal → NonModal → ℕ → Result (Commanded real)
  point_one b c d mantissa =
      if mantissa == 0
      then pass (set_non_modal b c, Group.g0, 0)
      else if mantissa == 10
      then pass (set_non_modal b d, Group.g0, 0)
      else fail unsupported_command

  -- G4, G10, G28, G30, G53, G92
  unfoldable pub non_modal_word : Block real → ℕ → ℕ → Result (Commanded real)
  non_modal_word b int_value mantissa =
      if int_value == 4
      then pass (set_non_modal b dwell, Group.g0, mantissa)
      else if int_value == 10
      then pass (set_non_modal b set_coordinate_data, Group.g0, mantissa)
      else if int_value == 28
      then point_one b go_home_0 set_home_0 mantissa
      else if int_value == 30
      then point_one b go_home_1 set_home_1 mantissa
      else if int_value == 53
      then pass (set_non_modal b absolute_override, Group.g0, mantissa)
      else point_one b set_coordinate_offset reset_coordinate_offset mantissa

  -- G0, G1, G2, G3, G38, G80
  unfoldable pub motion_word : Block real → ℕ → ℕ → Result (Commanded real)
  motion_word b int_value mantissa =
      if int_value == 0
      then pass (set_motion b seek, Group.g1, mantissa)
      else if int_value == 1
      then pass (set_motion b linear, Group.g1, mantissa)
      else if int_value == 2
      then pass (set_motion b cw_arc, Group.g1, mantissa)
      else if int_value == 3
      then pass (set_motion b ccw_arc, Group.g1, mantissa)
      else if int_value == 80
      then pass (set_motion b motion_none, Group.g1, mantissa)
      else if mantissa == 20
      then pass (set_motion b probe_toward, Group.g1, 0)
      else if mantissa == 30
      then pass (set_motion b probe_toward_no_error, Group.g1, 0)
      else if mantissa == 40
      then pass (set_motion b probe_away, Group.g1, 0)
      else if mantissa == 50
      then pass (set_motion b probe_away_no_error, Group.g1, 0)
      else fail unsupported_command

  -- G43.1, G49
  unfoldable pub tool_length_word : Block real → ℕ → ℕ → Result (Commanded real)
  tool_length_word b int_value mantissa =
      if has_command b.axis_command
      then fail axis_command_conflict
      else (let c = record b { axis_command = tool_length_offset } in
          if int_value == 49
          then pass (set_modal c (record (b.modal) { tool_length = cancel }), Group.g8, 0)
          else if mantissa == 10
          then pass (set_modal c (record (b.modal) { tool_length = enable_dynamic }), Group.g8, 0)
          else fail unsupported_command)

  -- G90, G91, G91.1
  unfoldable pub distance_word : Block real → ℕ → ℕ → Result (Commanded real)
  distance_word b int_value mantissa =
      if mantissa == 0
      then (if int_value == 90
          then pass (set_modal b (record (b.modal) { distance = absolute }), Group.g3, mantissa)
          else pass (set_modal b (record (b.modal) { distance = incremental }), Group.g3, mantissa))
      else if not (mantissa == 10) || int_value == 90
      then fail unsupported_command
      else pass (b, Group.g4, 0)

  abbrev is_axis_non_modal : ℕ → Bool
  is_axis_non_modal i = i == 10 || i == 28 || i == 30 || i == 92

  abbrev is_motion : ℕ → Bool
  is_motion i = leb i 3 || i == 38

  -- The outer switch on a G word.
  unfoldable pub g_word : Block real → ℕ → ℕ → Result (Commanded real)
  unfolding non_modal_word motion_word tool_length_word distance_word
  g_word b int_value mantissa =
      if is_axis_non_modal int_value
      then (if mantissa == 0
          then (if has_command b.axis_command
              then fail axis_command_conflict
              else non_modal_word (record b { axis_command = non_modal }) int_value mantissa)
          else non_modal_word b int_value mantissa)
      else if int_value == 4 || int_value == 53
      then non_modal_word b int_value mantissa
      else if is_motion int_value
      then (if has_command b.axis_command
          then fail axis_command_conflict
          else motion_word (record b { axis_command = motion_mode }) int_value mantissa)
      else if int_value == 80
      then motion_word b int_value mantissa
      else if int_value == 17
      then pass (set_modal b (record (b.modal) { plane_select = xy }), Group.g2, mantissa)
      else if int_value == 18
      then pass (set_modal b (record (b.modal) { plane_select = zx }), Group.g2, mantissa)
      else if int_value == 19
      then pass (set_modal b (record (b.modal) { plane_select = yz }), Group.g2, mantissa)
      else if int_value == 90 || int_value == 91
      then distance_word b int_value mantissa
      else if int_value == 93
      then pass (set_modal b (record (b.modal) { feed_rate = inverse_time }), Group.g5, mantissa)
      else if int_value == 94
      then pass (set_modal b (record (b.modal) { feed_rate = units_per_min }), Group.g5, mantissa)
      else if int_value == 20
      then pass (set_modal b (record (b.modal) { units = inches }), Group.g6, mantissa)
      else if int_value == 21
      then pass (set_modal b (record (b.modal) { units = mm }), Group.g6, mantissa)
      else if int_value == 40
      then pass (b, Group.g7, mantissa)
      else if int_value == 43 || int_value == 49
      then tool_length_word b int_value mantissa
      else if leb 54 int_value && leb int_value 59
      then pass
          (set_modal b (record (b.modal) { coord_select = int_value - 54 }), Group.g12, mantissa)
      else if int_value == 61
      then (if not (mantissa == 0) then fail unsupported_command else pass (b, Group.g13, mantissa))
      else fail unsupported_command

  -- The switch on an M word.
  unfoldable pub m_word : Block real → ℕ → Result (Block real × ℕ)
  m_word b int_value =
      if int_value == 0
      then pass (set_modal b (record (b.modal) { program_flow = paused }), Group.m4)
      else if int_value == 1
      then pass (b, Group.m4)
      else if int_value == 2 || int_value == 30
      then pass (set_modal b (record (b.modal) { program_flow = completed }), Group.m4)
      else if int_value == 3
      then pass (set_modal b (record (b.modal) { spindle = spindle_cw }), Group.m7)
      else if int_value == 4
      then pass (set_modal b (record (b.modal) { spindle = spindle_ccw }), Group.m7)
      else if int_value == 5
      then pass (set_modal b (record (b.modal) { spindle = spindle_disable }), Group.m7)
      else if int_value == 8
      then pass (set_modal b (record (b.modal) { coolant = coolant_flood }), Group.m8)
      else if int_value == 9
      then pass (set_modal b (record (b.modal) { coolant = coolant_disable }), Group.m8)
      else fail unsupported_command

  -- The check for a second command of a modal group, and its flag.
  unfoldable pub claim_group : Block real → ℕ → Result (Block real)
  claim_group b word_bit =
      if b.command_words word_bit
      then fail modal_group_violation
      else pass (record b { command_words = with_bit word_bit b.command_words })

  unfoldable pub g_command : Block real → ℕ → ℕ → Result (Block real)
  g_command b int_value mantissa = do
    w ← g_word b int_value mantissa
    if not (w.2 == 0) then fail command_value_not_integer else claim_group w.0 w.1

  unfoldable pub m_command : Block real → ℕ → ℕ → Result (Block real)
  m_command b int_value mantissa =
      if not (mantissa == 0)
      then fail command_value_not_integer
      else (do w ← m_word b int_value; claim_group w.0 w.1)
