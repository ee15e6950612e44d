-- ===== src/GCode/Check.antt =====
-- Step 3 of `gc_execute_line`: the checks on the values of a block, and their conversion to
-- millimetres and machine coordinates. The numbers in the comments are those of the source.
pub mod Target
pub mod Arc
pub mod Whole
use cpcbm.Base.{
  ℕ, ◌+◌, ◌-◌, Bool, true, false, not, ◌&&◌, ◌||◌, List, [], ◌∷◌, Option, none, some, ltb, leb,
  ◌==◌, if◌then◌else◌,
}
use cpcbm.Base.Bits.{Bits, with_bit, without_bits, any_bit}
use cpcbm.Base.Real.{Real, Vec, Axis, x_axis, y_axis, z_axis, at, put}
use cpcbm.GCode.Group
use cpcbm.GCode.Word
use cpcbm.GCode.Parse.{axis_bit}
use cpcbm.GCode.{
  Status, unsupported_command, undefined_feed_rate, no_axis_words, invalid_line_number,
  value_word_missing, unsupported_coord_sys, g53_invalid_motion_mode, axis_words_exist,
  no_axis_words_in_plane, invalid_target, arc_radius_error, no_offsets_in_plane, unused_words,
  g43_dynamic_axis_error, Result, pass, fail, read_fails, ◌>>=◌, ◌>>◌, AxisCommand, no_command,
  non_modal, motion_mode, tool_length_offset, NonModal, no_action, dwell, set_coordinate_data,
  go_home_0, set_home_0, go_home_1, set_home_1, absolute_override, set_coordinate_offset,
  reset_coordinate_offset, Motion, seek, linear, cw_arc, ccw_arc, probe_toward,
  probe_toward_no_error, probe_away, probe_away_no_error, motion_none, FeedRateMode, units_per_min,
  inverse_time, Units, mm, inches, Distance, absolute, incremental, Plane, xy, zx, yz, ToolLength,
  cancel, enable_dynamic, Modal, Values, Parser, Block, zero_vec,
}

abbrev pub max_line_number : ℕ
max_line_number = 9999999

-- N_COORDINATE_SYSTEM, SETTING_INDEX_G28, SETTING_INDEX_G30
abbrev pub n_coordinate_system : ℕ
n_coordinate_system = 6

abbrev pub setting_index_g28 : ℕ
setting_index_g28 = 6

abbrev pub setting_index_g30 : ℕ
setting_index_g30 = 7

-- TOOL_LENGTH_OFFSET_AXIS
abbrev pub tool_axis : Axis
tool_axis = z_axis

abbrev pub is_tool_axis : Axis → Bool
is_tool_axis z_axis = true
is_tool_axis _ = false

abbrev pub is_motion_mode : AxisCommand → Bool
is_motion_mode motion_mode = true
is_motion_mode _ = false

abbrev pub is_tool_length_offset : AxisCommand → Bool
is_tool_length_offset tool_length_offset = true
is_tool_length_offset _ = false

abbrev pub is_motion_none : Motion → Bool
is_motion_none motion_none = true
is_motion_none _ = false

abbrev pub is_seek : Motion → Bool
is_seek seek = true
is_seek _ = false

abbrev pub has_axis_words : Bits → Bool
has_axis_words = any_bit 3

-- [11] The two axes of the plane, and the third.
abbrev pub axis_0 : Plane → Axis
axis_0 xy = x_axis
axis_0 zx = z_axis
axis_0 yz = y_axis

abbrev pub axis_1 : Plane → Axis
axis_1 xy = y_axis
axis_1 zx = x_axis
axis_1 yz = z_axis

abbrev pub axis_linear : Plane → Axis
axis_linear xy = z_axis
axis_linear zx = y_axis
axis_linear yz = x_axis

-- `for (idx=0; idx<N_AXIS; idx++)`
abbrev pub each_axis : {A : Type 0} → (Axis → A) → Vec A
each_axis f = record { x = f x_axis; y = f y_axis; z = f z_axis }

module _ (real : Real) where
  open real use {R, decimal, add, sub, mul, div, neg, sqrt, fabs, lt, eq, trunc_u8}

  abbrev pub mm_per_inch : R
  mm_per_inch = decimal 2540 2

  abbrev set_values : Block real → Values real → Block real
  set_values b v = record b { values = v }

  -- [0] Axis words without an axis command are a motion.
  unfoldable pub implicit_command : Block real → Block real
  implicit_command b =
      if has_axis_words b.axis_words
      then (elim (b.axis_command) [ no_command ↦ record b { axis_command = motion_mode } | _ ↦ b ])
      else b

  unfoldable pub check_line_number : Block real → Result (Block real)
  check_line_number b =
      if b.value_words Word.n && ltb max_line_number b.values.n
      then fail invalid_line_number
      else pass b

  -- `(motion != MOTION_MODE_NONE) || (motion != MOTION_MODE_SEEK)`
  abbrev pub needs_feed_word : Motion → Bool
  needs_feed_word m = not (is_motion_none m) || not (is_seek m)

  -- [2, 3] The feed rate mode and the feed rate.
  unfoldable pub check_feed_rate : Parser real → Block real → Result (Block real)
  check_feed_rate st b = elim (b.modal.feed_rate) [
    | inverse_time ↦
        if is_motion_mode b.axis_command
          && needs_feed_word b.modal.motion
          && not (b.value_words Word.f)
        then fail undefined_feed_rate
        else pass b
    | units_per_min ↦ elim (st.modal.feed_rate) [
      | units_per_min ↦
          if b.value_words Word.f
          then (elim (b.modal.units) [
            | inches ↦ pass (set_values b (record (b.values) { f = mul b.values.f mm_per_inch }))
            | mm ↦ pass b
          ])
          else pass (set_values b (record (b.values) { f = st.feed_rate }))
      | inverse_time ↦ pass b
    ]
  ]

  -- [4] The spindle speed.
  unfoldable pub keep_spindle_speed : Parser real → Block real → Block real
  keep_spindle_speed st b =
      if not (b.value_words Word.s)
      then set_values b (record (b.values) { s = st.spindle_speed })
      else b

  -- [10] A dwell needs a P word.
  unfoldable pub check_dwell : Block real → Result (Block real)
  check_dwell b = elim (b.non_modal_command) [
    | dwell ↦
        if not (b.value_words Word.p)
        then fail value_word_missing
        else pass (record b { value_words = without_bits (Word.p ∷ []) b.value_words })
    | _ ↦ pass b
  ]

  abbrev to_mm : Bits → Vec R → Axis → R
  to_mm words v a = if words (axis_bit a) then mul (at v a) mm_per_inch else at v a

  -- [12] The axis words in millimetres.
  unfoldable pub convert_units : Block real → Block real
  convert_units b = elim (b.modal.units) [
    | inches ↦
        set_values b (record (b.values) { xyz = each_axis (to_mm b.axis_words b.values.xyz) })
    | mm ↦ b
  ]

  -- [14] `axis_words ^ (1<<TOOL_LENGTH_OFFSET_AXIS)` is zero for the Z word alone.
  unfoldable pub check_tool_length : Block real → Result (Block real)
  check_tool_length b = elim (b.axis_command) [
    | tool_length_offset ↦ elim (b.modal.tool_length) [
      | enable_dynamic ↦
          if b.axis_words 0 || b.axis_words 1 || not (b.axis_words 2)
          then fail g43_dynamic_axis_error
          else pass b
      | cancel ↦ pass b
    ]
    | _ ↦ pass b
  ]

  -- [15] The coordinate system of the block. `read_coord` is `settings_read_coord_data`: `none` if
  -- the stored data fail their checksum.
  unfoldable pub block_coord_system :
      (ℕ → Option (Vec R)) → Parser real → Block real → Result (Vec R)
  block_coord_system read_coord st b =
      if b.command_words Group.g12
      then (if ltb n_coordinate_system b.modal.coord_select
          then fail unsupported_coord_sys
          else if not (st.modal.coord_select == b.modal.coord_select)
          then (elim (read_coord b.modal.coord_select) [
            | none ↦ read_fails b.modal.coord_select
            | some data' ↦ pass data'
          ])
          else pass st.coord_system)
      else pass st.coord_system
