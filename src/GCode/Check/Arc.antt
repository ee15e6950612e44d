-- ===== src/GCode/Check/Arc.antt =====
-- [20] of step 3: the motion modes, with the geometry of arcs.
use cpcbm.Base.{Bool, true, false, not, ◌&&◌, ◌||◌, [], ◌∷◌, if◌then◌else◌}
use cpcbm.Base.Bits.{without_bits}
use cpcbm.Base.Real.{Real, Vec, Axis, at, put}
use cpcbm.GCode.Word
use cpcbm.GCode.Parse.{axis_bit}
use cpcbm.GCode.Check.{has_axis_words, each_axis, is_motion_mode, axis_0, axis_1, mm_per_inch}
use cpcbm.GCode.{
  undefined_feed_rate, no_axis_words, axis_words_exist, no_axis_words_in_plane, invalid_target,
  arc_radius_error, no_offsets_in_plane, Result, pass, fail, AxisCommand, no_command, non_modal,
  Motion, seek, linear, cw_arc, ccw_arc, probe_toward, probe_toward_no_error, probe_away,
  probe_away_no_error, motion_none, mm, inches, Values, Parser, Block,
}

abbrev is_non_modal : AxisCommand → Bool
is_non_modal non_modal = true
is_non_modal _ = false

abbrev is_ccw : Motion → Bool
is_ccw ccw_arc = true
is_ccw _ = false

module _ (real : Real) where
  open real use {R, decimal, add, sub, mul, div, neg, sqrt, fabs, lt, eq}

  -- gc_check_same_position
  abbrev pub same_position : Vec R → Vec R → Bool
  same_position a b = eq a.x b.x && eq a.y b.y && eq a.z b.z

  -- hypot_f
  abbrev pub hypot_f : R → R → R
  hypot_f x y = sqrt (add (mul x x) (mul y y))

  abbrev set_values : Block real → Values real → Block real
  set_values b v = record b { values = v }

  -- Radius mode, behind its checks: the radius in millimetres, the distance `h_x2_div_d` before its
  -- root, and the centre.
  abbrev radius_mm : Block real → R
  radius_mm b = elim (b.modal.units) [
    | inches ↦ mul b.values.r (mm_per_inch real)
    | mm ↦ b.values.r
  ]

  abbrev centre_of : Block real → R → R → R → R → Block real
  centre_of b r square x y =
      let root = div (neg (sqrt square)) (hypot_f x y) in
      let turned = if is_ccw b.modal.motion then neg root else root in
      let long = lt r (decimal 0 0) in
      let h = if long then neg turned else turned in
      let i = mul (decimal 5 1) (sub x (mul y h)) in
      let j = mul (decimal 5 1) (add y (mul x h)) in
      set_values b (record (b.values) {
        r = if long then neg r else r;
        ijk =
            put (put b.values.ijk (axis_0 b.modal.plane_select) i) (axis_1 b.modal.plane_select) j;
      })

  unfoldable pub check_arc_radius : Parser real → Block real → R → R → Result (Block real)
  check_arc_radius st b x y =
      let c = record b { value_words = without_bits (Word.r ∷ []) b.value_words } in
      let r = radius_mm b in
      let square = sub (sub (mul (mul (decimal 40 1) r) r) (mul x x)) (mul y y) in
      if same_position st.position b.values.xyz
      then fail invalid_target
      else if lt square (decimal 0 0)
      then fail arc_radius_error
      else pass (centre_of c r square x y)

  abbrev offset_mm : Block real → Axis → R
  offset_mm b a = elim (b.modal.units) [
    | inches ↦
        if b.ijk_words (axis_bit a)
        then mul (at b.values.ijk a) (mm_per_inch real)
        else at b.values.ijk a
    | mm ↦ at b.values.ijk a
  ]

  -- Offset mode.
  unfoldable pub check_arc_offset : Block real → R → R → Result (Block real)
  check_arc_offset b x y =
      let a0 = axis_0 b.modal.plane_select in
      let a1 = axis_1 b.modal.plane_select in
      let ijk = each_axis (offset_mm b) in
      let target_r = hypot_f (sub x (at ijk a0)) (sub y (at ijk a1)) in
      let r = hypot_f (at ijk a0) (at ijk a1) in
      let delta_r = fabs (sub target_r r) in
      let c = record b {
        value_words = without_bits (Word.i ∷ Word.j ∷ Word.k ∷ []) b.value_words;
        values = record (b.values) { ijk = ijk; r = r };
      } in
      if not (b.ijk_words (axis_bit a0) || b.ijk_words (axis_bit a1))
      then fail no_offsets_in_plane
      else if lt (decimal 5 3) delta_r
          && (lt (decimal 5 1) delta_r || lt (mul (decimal 1 3) r) delta_r)
      then fail invalid_target
      else pass c

  -- G2 and G3
  unfoldable pub check_arc : Parser real → Block real → Result (Block real)
  unfolding check_arc_radius check_arc_offset
  check_arc st b =
      let a0 = axis_0 b.modal.plane_select in
      let a1 = axis_1 b.modal.plane_select in
      let x = sub (at b.values.xyz a0) (at st.position a0) in
      let y = sub (at b.values.xyz a1) (at st.position a1) in
      if not (has_axis_words b.axis_words)
      then fail no_axis_words
      else if not (b.axis_words (axis_bit a0) || b.axis_words (axis_bit a1))
      then fail no_axis_words_in_plane
      else if b.value_words Word.r
      then check_arc_radius st b x y
      else check_arc_offset b x y

  -- G38.x
  unfoldable pub check_probe : Parser real → Block real → Result (Block real)
  check_probe st b =
      if not (has_axis_words b.axis_words)
      then fail no_axis_words
      else if same_position st.position b.values.xyz
      then fail invalid_target
      else pass b

  -- Without axis words a straight motion is not executed.
  abbrev straight : Block real → Block real
  straight b =
      if not (has_axis_words b.axis_words) then record b { axis_command = no_command } else b

  -- The motions that need a feed rate.
  unfoldable pub check_feed_motion : Parser real → Block real → Result (Block real)
  check_feed_motion st b =
      if eq b.values.f (decimal 0 0) then fail undefined_feed_rate else (elim (b.modal.motion) [
        | linear ↦ pass (straight b)
        | cw_arc ↦ check_arc st b
        | ccw_arc ↦ check_arc st b
        | probe_toward ↦ check_probe st b
        | probe_toward_no_error ↦ check_probe st b
        | probe_away ↦ check_probe st b
        | probe_away_no_error ↦ check_probe st b
        | _ ↦ pass b
      ])

  unfoldable pub check_motion : Parser real → Block real → Result (Block real)
  check_motion st b = elim (b.modal.motion) [
    | motion_none ↦
        if has_axis_words b.axis_words && not (is_non_modal b.axis_command)
        then fail axis_words_exist
        else pass b
    | seek ↦ if is_motion_mode b.axis_command then pass (straight b) else pass b
    | _ ↦ if is_motion_mode b.axis_command then check_feed_motion st b else pass b
  ]
