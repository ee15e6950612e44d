-- ===== src/GCode/Execute.antt =====
-- Step 4 of `gc_execute_line`: the execution of a checked block. The parser's state is updated, and
-- the calls into the other parts are recorded in order. The numbers in the comments are those of
-- the source.
use cpcbm.Base.{ℕ, Bool, true, false, List, [], ◌∷◌, ◌++◌, Option, none, some, ◌==◌, if◌then◌else◌}
use cpcbm.Base.Real.{Real, Vec, at}
use cpcbm.GCode.Check.{
  tool_axis, setting_index_g28, setting_index_g30, is_motion_mode, is_tool_length_offset,
}
use cpcbm.GCode.Words.{has_command}
use cpcbm.GCode.Check.Target.{Located}
use cpcbm.GCode.{
  Status, status_ok, setting_read_fail, dwell, set_coordinate_data, go_home_0, set_home_0,
  go_home_1, set_home_1, set_coordinate_offset, reset_coordinate_offset, Motion, seek, linear,
  cw_arc, ccw_arc, probe_toward, probe_toward_no_error, probe_away, probe_away_no_error,
  motion_none, FeedRateMode, units_per_min, inverse_time, absolute, Plane, xy, cancel,
  enable_dynamic, running, paused, completed, Spindle, spindle_disable, spindle_cw, spindle_ccw,
  Coolant, coolant_disable, coolant_mist, coolant_flood, Modal, Parser, Block, zero_vec,
}

abbrev pub spindle_code : Spindle → ℕ
spindle_code spindle_disable = 0
spindle_code spindle_cw = 1
spindle_code spindle_ccw = 2

abbrev pub coolant_code : Coolant → ℕ
coolant_code coolant_disable = 0
coolant_code coolant_mist = 1
coolant_code coolant_flood = 2

abbrev pub is_inverse_time : FeedRateMode → Bool
is_inverse_time inverse_time = true
is_inverse_time units_per_min = false

module _ (real : Real) where
  open real use {R, decimal, neg, eq}

  -- Calls, by the source's names; `program_pause` stands for the feed hold of M0 and the realtime
  -- execution that suspends.
  pub data Call : Type 0 where
    spindle_run : Spindle → R → Call
    coolant_run : Coolant → Call
    mc_dwell : R → Call
    settings_write_coord_data : ℕ → Vec R → Call
    mc_line : Vec R → R → Bool → Call
    -- position, target, offset, radius, feed rate, inverse time, plane, clockwise
    mc_arc : Vec R → Vec R → Vec R → R → R → Bool → Plane → Bool → Call
    -- target, feed rate, inverse time, away, no error
    mc_probe_cycle : Vec R → R → Bool → Bool → Bool → Call
    protocol_buffer_synchronize program_pause spindle_stop coolant_stop : Call
    report_program_end : Call

  -- What the execution asks of the rest of the system: whether it is in check mode, the stored
  -- coordinate data when the line begins, and the target that `mc_probe_cycle` hands back.
  pub record World : Type 0 where
    pub check_mode : Bool
    pub read_coord : ℕ → Option (Vec R)
    pub probed : Vec R → Vec R

  -- What `settings_read_coord_data` writes where the data with this index fail their checksum.
  abbrev pub reset_coord : ℕ → Call
  reset_coord i = settings_write_coord_data i (zero_vec real)

  -- The stored data behind the calls that have been made.
  abbrev pub read_after : (ℕ → Option (Vec R)) → List Call → ℕ → Option (Vec R)
  read_after read_coord [] i = read_coord i
  read_after read_coord (settings_write_coord_data j v ∷ cs) i =
      read_after (λ k. if k == j then some v else read_coord k) cs i
  read_after read_coord (_ ∷ cs) i = read_after read_coord cs i

  pub record Run : Type 0 where
    pub st : Parser real
    pub calls : List Call

  abbrev call : Run → Call → Run
  call u c = record u { calls = u.calls ++ (c ∷ []) }

  -- The state's modes, and the state with one of them changed.
  abbrev modal_of : Run → Modal
  modal_of u = u.st.modal

  abbrev set_modal : Run → Modal → Run
  set_modal u m = record u { st = record (u.st) { modal = m } }

  -- [0] to [3], [5]
  unfoldable pub run_rates : Block real → Run → Run
  run_rates b u = record u {
    st = record (u.st) {
      line_number = b.values.n;
      modal = record (u.st.modal) { feed_rate = b.modal.feed_rate };
      feed_rate = b.values.f;
    };
  }

  -- [4]
  unfoldable pub run_spindle_speed : Block real → Run → Run
  run_spindle_speed b u =
      if eq u.st.spindle_speed b.values.s
      then u
      else (let v =
            if spindle_code u.st.modal.spindle == 0
            then u
            else call u (spindle_run u.st.modal.spindle b.values.s) in
          record v { st = record (v.st) { spindle_speed = b.values.s } })

  -- [5], [7]
  unfoldable pub run_spindle : Block real → Run → Run
  run_spindle b u =
      let v = record u { st = record (u.st) { tool = b.values.t } } in
      if spindle_code v.st.modal.spindle == spindle_code b.modal.spindle
      then v
      else set_modal (call v (spindle_run b.modal.spindle v.st.spindle_speed))
          (record (v.st.modal) { spindle = b.modal.spindle })

  -- [8]
  unfoldable pub run_coolant : Block real → Run → Run
  run_coolant b u =
      if coolant_code u.st.modal.coolant == coolant_code b.modal.coolant
      then u
      else set_modal (call u (coolant_run b.modal.coolant))
          (record (u.st.modal) { coolant = b.modal.coolant })

  -- [10]
  unfoldable pub run_dwell : Block real → Run → Run
  run_dwell b u = elim (b.non_modal_command) [ dwell ↦ call u (mc_dwell b.values.p) | _ ↦ u ]

  -- [11], [12]
  unfoldable pub run_plane_units : Block real → Run → Run
  run_plane_units b u =
      set_modal u
        (record (u.st.modal) { plane_select = b.modal.plane_select; units = b.modal.units })

  -- [14]
  unfoldable pub run_tool_length : Block real → Run → Run
  run_tool_length b u =
      if is_tool_length_offset b.axis_command
      then record u {
        st = record (u.st) {
          modal = record (u.st.modal) { tool_length = b.modal.tool_length };
          tool_length_offset = elim (b.modal.tool_length) [
            | enable_dynamic ↦ at b.values.xyz tool_axis
            | cancel ↦ decimal 0 0
          ];
        };
      }
      else u

  -- [15]
  unfoldable pub run_coord_system : Block real → Vec R → Run → Run
  run_coord_system b coordinate_data u =
      if u.st.modal.coord_select == b.modal.coord_select then u else record u {
        st = record (u.st) {
          modal = record (u.st.modal) { coord_select = b.modal.coord_select };
          coord_system = coordinate_data;
        };
      }

  -- [17]
  unfoldable pub run_distance : Block real → Run → Run
  run_distance b u = set_modal u (record (u.st.modal) { distance = b.modal.distance })

  abbrev rapid : R
  rapid = neg (decimal 1 0)

  abbrev set_position : Run → Vec R → Run
  set_position u p = record u { st = record (u.st) { position = p } }

  -- [19] The move of G28 and G30.
  unfoldable pub run_go_home : Block real → Vec R → Run → Run
  run_go_home b home u =
      let v = if has_command b.axis_command then call u (mc_line b.values.xyz rapid false) else u in
      set_position (call v (mc_line home rapid false)) home

  -- [19]
  unfoldable pub run_non_modal : Located real → Run → Run
  unfolding run_go_home
  run_non_modal l u = elim (l.block.non_modal_command) [
    | set_coordinate_data ↦
        let v = call u (settings_write_coord_data l.coord_select l.parameter_data) in
        if u.st.modal.coord_select == l.coord_select
        then record v { st = record (v.st) { coord_system = l.parameter_data } }
        else v
    | go_home_0 ↦ run_go_home l.block l.parameter_data u
    | go_home_1 ↦ run_go_home l.block l.parameter_data u
    | set_home_0 ↦ call u (settings_write_coord_data setting_index_g28 u.st.position)
    | set_home_1 ↦ call u (settings_write_coord_data setting_index_g30 u.st.position)
    | set_coordinate_offset ↦ record u { st = record (u.st) { coord_offset = l.block.values.xyz } }
    | reset_coordinate_offset ↦ record u { st = record (u.st) { coord_offset = zero_vec real } }
    | _ ↦ u
  ]

  -- [20] The call for a motion.
  abbrev motion_call : Block real → Parser real → Option Call
  motion_call b st =
      let invert = is_inverse_time st.modal.feed_rate in
      let probe = λ (away no_error : Bool).
        some (mc_probe_cycle b.values.xyz st.feed_rate invert away no_error) in
      let arc = λ (clockwise : Bool). some (
        mc_arc st.position b.values.xyz b.values.ijk b.values.r st.feed_rate invert
          b.modal.plane_select clockwise) in
      elim (b.modal.motion) [
        | seek ↦ some (mc_line b.values.xyz rapid false)
        | linear ↦ some (mc_line b.values.xyz st.feed_rate invert)
        | cw_arc ↦ arc true
        | ccw_arc ↦ arc false
        | probe_toward ↦ probe false false
        | probe_toward_no_error ↦ probe false true
        | probe_away ↦ probe true false
        | probe_away_no_error ↦ probe true true
        | motion_none ↦ none
      ]

  abbrev is_probe : Motion → Bool
  is_probe probe_toward = true
  is_probe probe_toward_no_error = true
  is_probe probe_away = true
  is_probe probe_away_no_error = true
  is_probe _ = false

  -- [20] The position becomes the target, or what a probe cycle hands back.
  unfoldable pub run_motion : World → Block real → Run → Run
  run_motion w b u =
      let v = set_modal u (record (u.st.modal) { motion = b.modal.motion }) in
      let reached = if is_probe b.modal.motion then w.probed b.values.xyz else b.values.xyz in
      if is_motion_mode b.axis_command
      then (elim (motion_call b v.st) [ none ↦ v | some c ↦ set_position (call v c) reached ])
      else v

  -- [21] The modes that M2 and M30 reset.
  abbrev pub program_end_modal : Modal → Modal
  program_end_modal m = record m {
    motion = linear;
    plane_select = xy;
    distance = absolute;
    feed_rate = units_per_min;
    coord_select = 0;
    spindle = spindle_disable;
    coolant = coolant_disable;
  }

  abbrev flow_running : Run → Run
  flow_running u = set_modal u (record (u.st.modal) { program_flow = running })

  -- [21] The end of a program; the status is an error if the stored G54 data cannot be read.
  unfoldable pub run_program_end : World → Run → Status × Run
  run_program_end w u =
      let v = set_modal u (program_end_modal u.st.modal) in
      if w.check_mode
      then (status_ok, flow_running (call v report_program_end))
      else (elim (read_after w.read_coord v.calls 0) [
        | none ↦ (setting_read_fail, call v (reset_coord 0))
        | some g54 ↦ (
          status_ok,
          flow_running (
              call
                (call (call (record v { st = record (v.st) { coord_system = g54 } }) spindle_stop)
                  coolant_stop)
                report_program_end),
        )
      ])

  -- [21]
  unfoldable pub run_program_flow : World → Block real → Run → Status × Run
  unfolding run_program_end
  run_program_flow w b u =
      let v = set_modal u (record (u.st.modal) { program_flow = b.modal.program_flow }) in
      let synced = call v protocol_buffer_synchronize in
      elim (b.modal.program_flow) [
        | running ↦ (status_ok, v)
        | paused ↦
            (status_ok, flow_running (if w.check_mode then synced else call synced program_pause))
        | completed ↦ run_program_end w synced
      ]

  -- [0] to [17]
  unfoldable pub run_modes : Located real → Run → Run
  run_modes l u =
      let b = l.block in
      let u4 = run_spindle_speed b (run_rates b u) in
      let u8 = run_coolant b (run_spindle b u4) in
      let u12 = run_plane_units b (run_dwell b u8) in
      run_distance b (run_coord_system b l.coordinate_data (run_tool_length b u12))

  unfoldable pub execute_block : World → Located real → Parser real → Status × Run
  execute_block w l st =
      let b = l.block in
      let start : Run = record { st = st; calls = [] } in
      run_program_flow w b (run_motion w b (run_non_modal l (run_modes l start)))
