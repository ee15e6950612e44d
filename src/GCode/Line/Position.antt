-- ===== src/GCode/Line/Position.antt =====
-- The parser's position and the motions that it asks for.
use cpcbm.Base.{◌≡◌, refl, sym, List, [], ◌∷◌, ◌++◌, arith}
use cpcbm.Base.Real.{Real, Vec}
use cpcbm.GCode.Check.Target.{Located}
use cpcbm.GCode.Execute.{
  Call, mc_line, mc_arc, mc_probe_cycle, World, Run, run_rates, run_spindle_speed, run_spindle,
  run_coolant, run_dwell, run_plane_units, run_tool_length, run_coord_system, run_distance,
  run_go_home, run_non_modal, run_motion, run_program_end, run_program_flow, run_modes,
  execute_block,
}
use cpcbm.GCode.{Parser, Block}

module _ (real : Real) where
  open real use {R}

  -- Where a call leads from a position: the target of a line or an arc, and what a probe cycle hands
  -- back; other calls do not move.
  abbrev pub leads_to : World real → Vec R → Call real → Vec R
  leads_to w p (mc_line target feed invert) = target
  leads_to w p (mc_arc from target offset radius feed invert plane clockwise) = target
  leads_to w p (mc_probe_cycle target feed invert away no_error) = w.probed target
  leads_to w p _ = p

  unfoldable pub follow : World real → Vec R → List (Call real) → Vec R
  follow w p [] = p
  follow w p (c ∷ cs) = follow w (leads_to w p c) cs

  follow-append :
      (w : World real) (p : Vec R) (cs : List (Call real)) (c : Call real)
      → follow w p (cs ++ (c ∷ [])) ≡ leads_to w (follow w p cs) c
  unfolding follow
  follow-append w p [] c = refl
  follow-append w p (d ∷ cs) c = follow-append w (leads_to w p d) cs c

  -- The position is where the calls made so far lead.
  abbrev pub IsThere : World real → Vec R → Run real → Type 0
  IsThere w p u = follow w p u.calls ≡ u.st.position

  run_rates-IsThere :
      (w : World real) (p : Vec R) (b : Block real) (u : Run real)
      → IsThere w p u
      → IsThere w p (run_rates real b u)
  unfolding run_rates
  run_rates-IsThere w p b u h = grind (arith, follow-append w p)

  run_spindle_speed-IsThere :
      (w : World real) (p : Vec R) (b : Block real) (u : Run real)
      → IsThere w p u
      → IsThere w p (run_spindle_speed real b u)
  unfolding run_spindle_speed
  run_spindle_speed-IsThere w p b u h = grind (arith, follow-append w p)

  run_spindle-IsThere :
      (w : World real) (p : Vec R) (b : Block real) (u : Run real)
      → IsThere w p u
      → IsThere w p (run_spindle real b u)
  unfolding run_spindle
  run_spindle-IsThere w p b u h = grind (arith, follow-append w p)

  run_coolant-IsThere :
      (w : World real) (p : Vec R) (b : Block real) (u : Run real)
      → IsThere w p u
      → IsThere w p (run_coolant real b u)
  unfolding run_coolant
  run_coolant-IsThere w p b u h = grind (arith, follow-append w p)

  run_dwell-IsThere :
      (w : World real) (p : Vec R) (b : Block real) (u : Run real)
      → IsThere w p u
      → IsThere w p (run_dwell real b u)
  unfolding run_dwell
  run_dwell-IsThere w p b u h = grind (arith, follow-append w p)

  run_plane_units-IsThere :
      (w : World real) (p : Vec R) (b : Block real) (u : Run real)
      → IsThere w p u
      → IsThere w p (run_plane_units real b u)
  unfolding run_plane_units
  run_plane_units-IsThere w p b u h = grind (arith, follow-append w p)

  run_tool_length-IsThere :
      (w : World real) (p : Vec R) (b : Block real) (u : Run real)
      → IsThere w p u
      → IsThere w p (run_tool_length real b u)
  unfolding run_tool_length
  run_tool_length-IsThere w p b u h = grind (arith, follow-append w p)

  run_distance-IsThere :
      (w : World real) (p : Vec R) (b : Block real) (u : Run real)
      → IsThere w p u
      → IsThere w p (run_distance real b u)
  unfolding run_distance
  run_distance-IsThere w p b u h = grind (arith, follow-append w p)

  run_coord_system-IsThere :
      (w : World real) (p : Vec R) (b : Block real) (v : Vec R) (u : Run real)
      → IsThere w p u
      → IsThere w p (run_coord_system real b v u)
  unfolding run_coord_system
  run_coord_system-IsThere w p b v u h = ground arith

  run_modes-IsThere :
      (w : World real) (p : Vec R) (l : Located real) (u : Run real)
      → IsThere w p u
      → IsThere w p (run_modes real l u)
  unfolding run_modes
  run_modes-IsThere w p l u h =
      let h4 = run_spindle_speed-IsThere w p l.block _ (run_rates-IsThere w p l.block u h) in
      let h8 = run_coolant-IsThere w p l.block _ (run_spindle-IsThere w p l.block _ h4) in
      let h12 = run_plane_units-IsThere w p l.block _ (run_dwell-IsThere w p l.block _ h8) in
      run_distance-IsThere w p l.block _ (
        run_coord_system-IsThere w p l.block l.coordinate_data _
          (run_tool_length-IsThere w p l.block _ h12))

  run_go_home-IsThere :
      (w : World real) (p : Vec R) (b : Block real) (home : Vec R) (u : Run real)
      → IsThere w p u
      → IsThere w p (run_go_home real b home u)
  unfolding run_go_home
  run_go_home-IsThere w p b home u h = grind (arith, follow-append w p)

  run_non_modal-IsThere :
      (w : World real) (p : Vec R) (l : Located real) (u : Run real)
      → IsThere w p u
      → IsThere w p (run_non_modal real l u)
  unfolding run_non_modal
  run_non_modal-IsThere w p l u h =
      grind (arith, follow-append w p, run_go_home-IsThere w p l.block l.parameter_data u h)

  run_motion-IsThere :
      (w : World real) (p : Vec R) (b : Block real) (u : Run real)
      → IsThere w p u
      → IsThere w p (run_motion real w b u)
  unfolding run_motion
  run_motion-IsThere w p b u h = grind (arith, follow-append w p)

  run_program_end-IsThere :
      (w : World real) (p : Vec R) (u : Run real)
      → IsThere w p u
      → IsThere w p ((run_program_end real w u).1)
  unfolding run_program_end
  run_program_end-IsThere w p u h = grind (arith, follow-append w p)

  run_program_flow-IsThere :
      (w : World real) (p : Vec R) (b : Block real) (u : Run real)
      → IsThere w p u
      → IsThere w p ((run_program_flow real w b u).1)
  unfolding run_program_flow
  run_program_flow-IsThere w p b u h = grind (arith, follow-append w p, run_program_end-IsThere w p)

  -- When a checked block has been executed, also with an error at the program's end, the parser's
  -- position is where the motion calls that the block made lead from the position before: the target
  -- of the last line or arc, or what the probe cycle handed back, or the position before if it made
  -- no such call.
  pub execute_block-follow :
      (w : World real) (l : Located real) (st : Parser real)
      → (execute_block real w l st).1.st.position
        ≡ follow w st.position (execute_block real w l st).1.calls
  unfolding execute_block follow
  execute_block-follow w l st = sym (
      run_program_flow-IsThere w st.position l.block _ (
        run_motion-IsThere w st.position l.block _ (
          run_non_modal-IsThere w st.position l _
            (run_modes-IsThere w st.position l (record { st = st; calls = [] }) refl))))
