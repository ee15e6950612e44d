-- ===== src/Stepper/Ramps.antt =====
-- common_src/stepper.c, `st_prep_buffer`: the speed profile of a block, and the distance that a segment
-- takes on it.
use cpcbm.Base.{ℕ, zero, suc, Bool, false, ◌&&◌, Option, none, some, if◌then◌else◌}
use cpcbm.Base.Real.{Real}
use cpcbm.Planner.{plan_get_exec_block_exit_speed}
use cpcbm.Stepper.Prepare.{
  Ramp, accel, cruise, decel, Preparation, current_block, set_speed, is_suspended,
}

module _ (real : Real) where
  open real use {R, decimal, add, sub, mul, div, sqrt, lt, eq, of_nat}

  -- DT_SEGMENT
  abbrev pub dt_segment : R
  dt_segment = div (decimal 1 0) (mul (of_nat 100) (decimal 60 0))

  -- A hold in progress: the machine slows down to zero speed, or to the end of the block.
  abbrev pub hold_profile : ℕ → Preparation real → Preparation real
  hold_profile i s =
      let block = current_block real i s in
      let inv_2_accel = div (decimal 5 1) block.acceleration in
      let decel_dist = sub block.millimeters (mul inv_2_accel block.entry_speed_sqr) in
      if lt decel_dist (decimal 0 0)
      then record s {
        ramp_type = decel;
        mm_complete = decimal 0 0;
        exit_speed = sqrt (
            sub block.entry_speed_sqr
              (mul (mul (decimal 2 0) block.acceleration) block.millimeters));
      }
      else record s { ramp_type = decel; mm_complete = decel_dist; exit_speed = decimal 0 0 }

  -- The profile that the planner's speeds give.
  abbrev pub normal_profile : ℕ → Preparation real → Preparation real
  normal_profile i s =
      let block = current_block real i s in
      let inv_2_accel = div (decimal 5 1) block.acceleration in
      let exit = plan_get_exec_block_exit_speed real s.plan.planner in
      let exit_speed_sqr = mul exit exit in
      let intersect_distance =
        mul (decimal 5 1)
          (add block.millimeters (mul inv_2_accel (sub block.entry_speed_sqr exit_speed_sqr))) in
      let after = mul inv_2_accel (sub block.nominal_speed_sqr exit_speed_sqr) in
      let common = record s {
        ramp_type = accel;
        mm_complete = decimal 0 0;
        accelerate_until = block.millimeters;
        exit_speed = exit;
      } in
      let trapezoid = record common {
        decelerate_after = after;
        maximum_speed = sqrt block.nominal_speed_sqr;
      } in
      if lt (decimal 0 0) intersect_distance
      then (if lt intersect_distance block.millimeters
          then (if lt after intersect_distance
              then (if eq block.entry_speed_sqr block.nominal_speed_sqr
                  then record trapezoid { ramp_type = cruise }
                  else record trapezoid {
                    accelerate_until =
                        sub block.millimeters
                          (mul inv_2_accel (sub block.nominal_speed_sqr block.entry_speed_sqr));
                  })
              else record common {
                accelerate_until = intersect_distance;
                decelerate_after = intersect_distance;
                maximum_speed = sqrt (
                    add (mul (mul (decimal 2 0) block.acceleration) intersect_distance)
                      exit_speed_sqr);
              })
          else record common { ramp_type = decel; maximum_speed = s.plan.prep.current_speed })
      else record common { accelerate_until = decimal 0 0; maximum_speed = exit }

  unfoldable pub compute_profile : ℕ → Preparation real → Preparation real
  compute_profile i s =
      if is_suspended s.stepper.state then hold_profile i s else normal_profile i s

  -- The variables of the loop over the ramps.
  pub record Ramping : Type 0 where
    pub preparation : Preparation real
    pub dt_max : R
    pub dt : R
    pub time_var : R
    pub mm_remaining : R

  abbrev pub ramp_accel : ℕ → Ramping → Ramping
  ramp_accel i r =
      let s = r.preparation in
      let block = current_block real i s in
      let speed = s.plan.prep.current_speed in
      let speed_var = mul block.acceleration r.time_var in
      let mm = sub r.mm_remaining (mul r.time_var (add speed (mul (decimal 5 1) speed_var))) in
      if lt mm s.accelerate_until
      then record r {
        mm_remaining = s.accelerate_until;
        time_var =
            div (mul (decimal 2 0) (sub block.millimeters s.accelerate_until))
              (add speed s.maximum_speed);
        preparation = set_speed real s.maximum_speed (record s {
          ramp_type = if eq s.accelerate_until s.decelerate_after then decel else cruise;
        });
      }
      else record r { mm_remaining = mm; preparation = set_speed real (add speed speed_var) s }

  abbrev pub ramp_cruise : Ramping → Ramping
  ramp_cruise r =
      let s = r.preparation in
      let mm_var = sub r.mm_remaining (mul s.maximum_speed r.time_var) in
      if lt mm_var s.decelerate_after
      then record r {
        time_var = div (sub r.mm_remaining s.decelerate_after) s.maximum_speed;
        mm_remaining = s.decelerate_after;
        preparation = record s { ramp_type = decel };
      }
      else record r { mm_remaining = mm_var }

  abbrev pub ramp_decel : ℕ → Ramping → Ramping
  ramp_decel i r =
      let s = r.preparation in
      let speed = s.plan.prep.current_speed in
      let speed_var = mul ((current_block real i s).acceleration) r.time_var in
      let mm_var = sub r.mm_remaining (mul r.time_var (sub speed (mul (decimal 5 1) speed_var))) in
      if lt speed_var speed && lt s.mm_complete mm_var
      then record r { mm_remaining = mm_var; preparation = set_speed real (sub speed speed_var) s }
      else record r {
        time_var =
            div (mul (decimal 2 0) (sub r.mm_remaining s.mm_complete)) (add speed s.exit_speed);
        mm_remaining = s.mm_complete;
      }

  abbrev pub ramp_by : Ramp → ℕ → Ramping → Ramping
  ramp_by accel i r = ramp_accel i r
  ramp_by cruise i r = ramp_cruise r
  ramp_by decel i r = ramp_decel i r

  -- The time after a ramp, and whether the loop goes on.
  abbrev pub take_time : R → Ramping → Bool × Ramping
  take_time minimum_mm r =
      let dt = add r.dt r.time_var in
      let longer = add r.dt_max dt_segment in
      if lt dt r.dt_max
      then (
        lt r.preparation.mm_complete r.mm_remaining,
        record r { dt = dt; time_var = sub r.dt_max dt },
      )
      else if lt minimum_mm r.mm_remaining
      then (
        lt r.preparation.mm_complete r.mm_remaining,
        record r { dt = dt; dt_max = longer; time_var = sub longer dt },
      )
      else (false, record r { dt = dt })

  unfoldable pub ramp_once : ℕ → R → Ramping → Bool × Ramping
  ramp_once i minimum_mm r = take_time minimum_mm (ramp_by r.preparation.ramp_type i r)

  -- The loop over the ramps, on fuel.
  unfoldable pub ramp_loop : ℕ → ℕ → R → Ramping → Option Ramping
  unfolding ramp_once
  ramp_loop zero i minimum_mm r = none
  ramp_loop (suc fuel) i minimum_mm r =
      let (more, after) = ramp_once i minimum_mm r in
      let rest = ramp_loop fuel i minimum_mm after in if more then rest else some after

  abbrev pub first_ramp : ℕ → Preparation real → Ramping
  first_ramp i s = record {
    preparation = s;
    dt_max = dt_segment;
    dt = decimal 0 0;
    time_var = dt_segment;
    mm_remaining = (current_block real i s).millimeters;
  }

  -- The distance that makes sure of a step.
  abbrev pub minimum_distance : ℕ → Preparation real → R
  minimum_distance i s =
      let minimum_mm = sub ((current_block real i s).millimeters) s.req_mm_increment in
      if lt minimum_mm (decimal 0 0) then decimal 0 0 else minimum_mm
