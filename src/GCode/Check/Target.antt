-- ===== src/GCode/Check/Target.antt =====
-- [19] of step 3: the coordinate data and the target position of a block.
use cpcbm.Base.{
  ℕ, ◌-◌, Bool, true, false, not, ◌&&◌, ◌||◌, [], ◌∷◌, Option, none, some, ltb, ◌==◌, if◌then◌else◌,
}
use cpcbm.Base.Bits.{without_bits}
use cpcbm.Base.Real.{Real, Vec, Axis, at}
use cpcbm.GCode.Word
use cpcbm.GCode.Parse.{axis_bit}
use cpcbm.GCode.Check.{
  n_coordinate_system, setting_index_g28, setting_index_g30, is_tool_axis, is_tool_length_offset,
  has_axis_words, each_axis,
}
use cpcbm.GCode.{
  unsupported_command, no_axis_words, value_word_missing, unsupported_coord_sys,
  g53_invalid_motion_mode, Result, pass, fail, read_fails, no_command, NonModal,
  set_coordinate_data, go_home_0, go_home_1, absolute_override, set_coordinate_offset, Motion, seek,
  linear, absolute, incremental, Parser, Block, zero_vec,
}

abbrev pub is_absolute_override : NonModal → Bool
is_absolute_override absolute_override = true
is_absolute_override _ = false

abbrev is_seek_or_linear : Motion → Bool
is_seek_or_linear seek = true
is_seek_or_linear linear = true
is_seek_or_linear _ = false

module _ (real : Real) where
  open real use {R, add, sub, trunc_u8}

  -- The block, with `coord_select`, `coordinate_data` and `parameter_data`.
  pub record Located : Type 0 where
    pub block : Block real
    pub coord_select : ℕ
    pub coordinate_data : Vec R
    pub parameter_data : Vec R

  abbrev located : Block real → Vec R → Located
  located b coordinate_data = record {
    block = b;
    coord_select = 0;
    coordinate_data = coordinate_data;
    parameter_data = zero_vec real;
  }

  -- G10 L2 and L20: the new value of an axis of the stored system.
  abbrev g10_axis : Parser real → Block real → Vec R → Axis → R
  g10_axis st b stored a =
      if b.axis_words (axis_bit a)
      then (if b.values.l == 20
          then (let here =
                sub (sub (at st.position a) (at st.coord_offset a)) (at b.values.xyz a) in
              if is_tool_axis a then sub here st.tool_length_offset else here)
          else at b.values.xyz a)
      else at stored a

  -- G10 with its L and P words checked.
  unfoldable pub load_coordinate_data :
      (ℕ → Option (Vec R)) → Parser real → Block real → Vec R → ℕ → Result Located
  load_coordinate_data read_coord st b coordinate_data p =
      let coord_select = if ltb 0 p then p - 1 else b.modal.coord_select in
      elim (read_coord coord_select) [
        | none ↦ read_fails coord_select
        | some stored ↦ pass (record {
          block = record b { value_words = without_bits (Word.l ∷ Word.p ∷ []) b.value_words };
          coord_select = coord_select;
          coordinate_data = coordinate_data;
          parameter_data = each_axis (g10_axis st b stored);
        })
      ]

  unfoldable pub check_set_coordinate_data :
      (ℕ → Option (Vec R)) → Parser real → Block real → Vec R → Result Located
  unfolding load_coordinate_data
  check_set_coordinate_data read_coord st b coordinate_data =
      if not (has_axis_words b.axis_words)
      then fail no_axis_words
      else if not (b.value_words Word.p) && not (b.value_words Word.l)
      then fail value_word_missing
      else if ltb n_coordinate_system (trunc_u8 b.values.p)
      then fail unsupported_coord_sys
      else if not (b.values.l == 20) && (not (b.values.l == 2) || b.value_words Word.r)
      then fail unsupported_command
      else load_coordinate_data read_coord st b coordinate_data (trunc_u8 b.values.p)

  -- G92: the offset that makes the current position read as programmed.
  abbrev g92_axis : Parser real → Block real → Vec R → Axis → R
  g92_axis st b coordinate_data a =
      if b.axis_words (axis_bit a)
      then (let here = sub (sub (at st.position a) (at coordinate_data a)) (at b.values.xyz a) in
          if is_tool_axis a then sub here st.tool_length_offset else here)
      else at st.coord_offset a

  unfoldable pub check_set_coordinate_offset : Parser real → Block real → Vec R → Result Located
  check_set_coordinate_offset st b coordinate_data =
      if not (has_axis_words b.axis_words)
      then fail no_axis_words
      else pass (
          located
            (record b {
              values = record (b.values) { xyz = each_axis (g92_axis st b coordinate_data) };
            })
            coordinate_data)

  -- The target of an axis, in machine coordinates.
  abbrev pub target_axis : Parser real → Block real → Vec R → Axis → R
  target_axis st b coordinate_data a =
      if not (b.axis_words (axis_bit a))
      then at st.position a
      else if is_absolute_override b.non_modal_command
      then at b.values.xyz a
      else (elim (b.modal.distance) [
        | absolute ↦
            let there =
              add (at b.values.xyz a) (add (at coordinate_data a) (at st.coord_offset a)) in
            if is_tool_axis a then add there st.tool_length_offset else there
        | incremental ↦ add (at b.values.xyz a) (at st.position a)
      ])

  unfoldable pub set_target : Parser real → Block real → Vec R → Block real
  set_target st b coordinate_data =
      if not (is_tool_length_offset b.axis_command) && has_axis_words b.axis_words
      then record b {
        values = record (b.values) { xyz = each_axis (target_axis st b coordinate_data) };
      }
      else b

  -- G28 and G30
  unfoldable pub check_go_home : (ℕ → Option (Vec R)) → Block real → Vec R → ℕ → Result Located
  check_go_home read_coord b coordinate_data index =
      let c =
        if not (has_axis_words b.axis_words) then record b { axis_command = no_command } else b in
      elim (read_coord index) [
        | none ↦ read_fails index
        | some home ↦ pass (record {
          block = c;
          coord_select = 0;
          coordinate_data = coordinate_data;
          parameter_data = home;
        })
      ]

  -- The rest of the switch, on the block with its target.
  unfoldable pub check_other : (ℕ → Option (Vec R)) → Block real → Vec R → Result Located
  unfolding check_go_home
  check_other read_coord b coordinate_data = elim (b.non_modal_command) [
    | go_home_0 ↦ check_go_home read_coord b coordinate_data setting_index_g28
    | go_home_1 ↦ check_go_home read_coord b coordinate_data setting_index_g30
    | absolute_override ↦
        if is_seek_or_linear b.modal.motion
        then pass (located b coordinate_data)
        else fail g53_invalid_motion_mode
    | _ ↦ pass (located b coordinate_data)
  ]

  unfoldable pub check_non_modal :
      (ℕ → Option (Vec R)) → Parser real → Block real → Vec R → Result Located
  unfolding check_set_coordinate_data check_set_coordinate_offset set_target check_other
  check_non_modal read_coord st b coordinate_data = elim (b.non_modal_command) [
    | set_coordinate_data ↦ check_set_coordinate_data read_coord st b coordinate_data
    | set_coordinate_offset ↦ check_set_coordinate_offset st b coordinate_data
    | _ ↦ check_other read_coord (set_target st b coordinate_data) coordinate_data
  ]
