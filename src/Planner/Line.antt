-- ===== src/Planner/Line.antt =====
-- common_src/planner.c: `plan_buffer_line` for COREXY, where the motors A and B stand in the cells of
-- X and Y, and `plan_sync_position`. The overflow of a position in steps is not modelled.
use Prim.Native.Nat.{bit_or}
use cpcbm.Base.{ℕ, ◌+◌, ◌/◌, ◌^◌, Bool, not, Option, some, ltb, ◌==◌, if◌then◌else◌, set}
use cpcbm.Base.Int.{ℤ, pos, negsuc, absolute, negate, plus, minus}
use cpcbm.Base.Real.{Real, Vec, Axis, x_axis, y_axis, z_axis, at, put}
use cpcbm.Settings.Global.{GlobalSettings, is_bit}
use cpcbm.Planner.{PlanBlock, Planner, push_block}
use cpcbm.Planner.Recalculate.{Plan, block_at, planner_recalculate}

-- `get_direction_pin_mask`
abbrev pub direction_pin_mask : Axis → ℕ
direction_pin_mask x_axis = 2 ^ 4
direction_pin_mask y_axis = 2 ^ 10
direction_pin_mask z_axis = 2 ^ 8

module _ (real : Real) where
  open real use {
    R, decimal, add, sub, mul, div, neg, sqrt, fabs, lt, eq, lround, trunc_long, of_int,
  }

  -- The macros `max` and `min`.
  abbrev pub larger : R → R → R
  larger a b = if lt b a then a else b

  abbrev pub smaller : R → R → R
  smaller a b = if lt a b then a else b

  abbrev pub some_large_value : R
  some_large_value = decimal (10 ^ 38) 0

  -- Whether the motion along an axis is inverted.
  abbrev pub corexy_dir_invert : GlobalSettings real → ℕ → R
  corexy_dir_invert settings idx =
      if is_bit settings.dir_invert_mask idx then neg (decimal 1 0) else decimal 1 0

  abbrev pub target_steps : GlobalSettings real → Vec R → Vec ℤ
  target_steps settings target = record {
    x = lround (mul target.x settings.steps_per_mm.x);
    y = lround (mul target.y settings.steps_per_mm.y);
    z = lround (mul target.z settings.steps_per_mm.z);
  }

  -- `target_steps - pl.position`
  abbrev pub steps_to : Vec ℤ → Vec ℤ → Vec ℤ
  steps_to position target = record {
    x = minus target.x position.x;
    y = minus target.y position.y;
    z = minus target.z position.z;
  }

  abbrev pub inverted : GlobalSettings real → ℕ → ℤ → R
  inverted settings idx n = mul (corexy_dir_invert settings idx) (of_int n)

  -- `block->steps`
  abbrev pub motor_steps : GlobalSettings real → Vec ℤ → Vec ℕ
  motor_steps settings d = record {
    x = absolute (trunc_long (add (inverted settings 0 d.x) (inverted settings 1 d.y)));
    y = absolute (trunc_long (sub (inverted settings 0 d.x) (inverted settings 1 d.y)));
    z = absolute d.z;
  }

  -- `delta_mm`
  abbrev pub delta_mm : GlobalSettings real → Vec ℤ → Axis → R
  delta_mm settings d x_axis = div (of_int (plus d.x d.y)) settings.steps_per_mm.x
  delta_mm settings d y_axis = div (of_int (minus d.x d.y)) settings.steps_per_mm.y
  delta_mm settings d z_axis = div (of_int d.z) settings.steps_per_mm.z

  abbrev pub delta_mm_signed : GlobalSettings real → Vec ℤ → Axis → R
  delta_mm_signed settings d x_axis =
      div (add (inverted settings 0 d.x) (inverted settings 1 d.y)) settings.steps_per_mm.x
  delta_mm_signed settings d y_axis =
      div (add (inverted settings 0 d.x) (inverted settings 1 (negate d.y))) settings.steps_per_mm.y
  delta_mm_signed settings d z_axis = div (inverted settings 2 d.z) settings.steps_per_mm.z

  -- The body of the first loop over the axes.
  unfoldable pub measure_axis : GlobalSettings real → Vec ℤ → Axis → PlanBlock real → PlanBlock real
  measure_axis settings d axis b = record b {
    step_event_count =
        if ltb (at b.steps axis) b.step_event_count then b.step_event_count else at b.steps axis;
    direction_bits =
        if lt (delta_mm_signed settings d axis) (decimal 0 0)
        then bit_or b.direction_bits (direction_pin_mask axis)
        else b.direction_bits;
    millimeters = add b.millimeters (mul (delta_mm settings d axis) (delta_mm settings d axis));
  }

  -- The block with its distance, written over what the cell held.
  unfoldable pub measured_block : GlobalSettings real → Vec ℤ → PlanBlock real → PlanBlock real
  unfolding measure_axis
  measured_block settings d b =
      let begun = record b {
        steps = motor_steps settings d;
        step_event_count = 0;
        millimeters = decimal 0 0;
        direction_bits = 0;
        acceleration = some_large_value;
      } in
      let all =
        measure_axis settings d z_axis
          (measure_axis settings d y_axis (measure_axis settings d x_axis begun)) in
      record all { millimeters = sqrt all.millimeters }

  -- The feed rate in mm/min.
  abbrev pub adjusted_rate : R → Bool → R → R
  adjusted_rate feed_rate invert_feed_rate millimeters =
      let rate =
        if lt feed_rate (decimal 0 0)
        then some_large_value
        else if invert_feed_rate
        then mul feed_rate millimeters
        else feed_rate in
      if lt rate (decimal 1 0) then decimal 1 0 else rate

  -- What the second loop over the axes computes.
  pub record Limits : Type 0 where
    pub feed_rate : R
    pub acceleration : R
    pub unit_vec : Vec R
    pub junction_cos_theta : R

  -- The body of the second loop.
  unfoldable pub limit_axis : GlobalSettings real → R → Vec R → Axis → Limits → Limits
  limit_axis settings inverse_millimeters previous axis l =
      let unit = mul (at l.unit_vec axis) inverse_millimeters in
      let inverse = fabs (div (decimal 1 0) unit) in
      if not (eq (at l.unit_vec axis) (decimal 0 0))
      then record {
        feed_rate = smaller l.feed_rate (mul (at settings.max_rate axis) inverse);
        acceleration = smaller l.acceleration (mul (at settings.acceleration axis) inverse);
        unit_vec = put l.unit_vec axis unit;
        junction_cos_theta = sub l.junction_cos_theta (mul (at previous axis) unit);
      }
      else l

  unfoldable pub limits_of : GlobalSettings real → Vec ℤ → Vec R → R → PlanBlock real → Limits
  unfolding limit_axis
  limits_of settings d previous rate b =
      let inverse_millimeters = div (decimal 1 0) b.millimeters in
      let begun : Limits = record {
        feed_rate = rate;
        acceleration = b.acceleration;
        unit_vec = record {
          x = delta_mm_signed settings d x_axis;
          y = delta_mm_signed settings d y_axis;
          z = delta_mm_signed settings d z_axis;
        };
        junction_cos_theta = decimal 0 0;
      } in
      limit_axis settings inverse_millimeters previous z_axis (
        limit_axis settings inverse_millimeters previous y_axis
          (limit_axis settings inverse_millimeters previous x_axis begun))

  -- MINIMUM_JUNCTION_SPEED*MINIMUM_JUNCTION_SPEED
  abbrev pub minimum_junction : R
  minimum_junction = mul (decimal 0 0) (decimal 0 0)

  -- The junction with the block before.
  unfoldable pub junction_speed : GlobalSettings real → R → R → R
  junction_speed settings acceleration cos_theta =
      let bounded = larger cos_theta (neg (decimal 999999 6)) in
      let sin_theta_d2 = sqrt (mul (decimal 5 1) (sub (decimal 1 0) bounded)) in
      if lt (decimal 999999 6) cos_theta
      then minimum_junction
      else larger minimum_junction (
          div (mul (mul acceleration settings.junction_deviation) sin_theta_d2)
            (sub (decimal 1 0) sin_theta_d2))

  abbrev pub with_junction : Bool → R → PlanBlock real → PlanBlock real
  with_junction is_first speed b =
      if is_first
      then record b { entry_speed_sqr = decimal 0 0; max_junction_speed_sqr = decimal 0 0 }
      else record b { max_junction_speed_sqr = speed }

  -- The speeds of a block that has a distance.
  unfoldable pub timed_block :
      GlobalSettings real → Limits → Planner real → PlanBlock real → PlanBlock real
  unfolding junction_speed
  timed_block settings l p b =
      let limited = record b { acceleration = l.acceleration } in
      let joined =
        with_junction (p.head == p.tail)
          (junction_speed settings l.acceleration l.junction_cos_theta) limited in
      let nominal = mul l.feed_rate l.feed_rate in
      record joined {
        nominal_speed_sqr = nominal;
        max_entry_speed_sqr =
            smaller joined.max_junction_speed_sqr (smaller nominal p.pl.previous_nominal_speed_sqr);
      }

  -- The measured block in the free cell, or with its speeds in the ring, unless it has no steps.
  unfoldable pub store_block :
      Vec ℤ → Vec R → PlanBlock real → PlanBlock real → Planner real → Planner real
  unfolding push_block
  store_block steps unit_vec measured block p =
      if measured.step_event_count == 0
      then record p { block_buffer = set p.block_buffer p.head measured }
      else record (push_block real p block) {
        pl = record {
          position = steps;
          previous_unit_vec = unit_vec;
          previous_nominal_speed_sqr = block.nominal_speed_sqr;
        };
      }

  -- The planner before the recalculation.
  unfoldable pub buffer_block : GlobalSettings real → Vec R → R → Bool → Planner real → Planner real
  unfolding measured_block limits_of timed_block store_block
  buffer_block settings target feed_rate invert_feed_rate p =
      let steps = target_steps settings target in
      let d = steps_to p.pl.position steps in
      let b = measured_block settings d (block_at real p p.head) in
      let l =
        limits_of settings d p.pl.previous_unit_vec
          (adjusted_rate feed_rate invert_feed_rate b.millimeters) b in
      store_block steps l.unit_vec b (timed_block settings l p b) p

  -- `none` where the recalculation would not end.
  unfoldable pub plan_buffer_line :
      GlobalSettings real → Vec R → R → Bool → Plan real → Option (Plan real)
  unfolding buffer_block planner_recalculate
  plan_buffer_line settings target feed_rate invert_feed_rate s =
      let planner = buffer_block settings target feed_rate invert_feed_rate s.planner in
      let d = steps_to s.planner.pl.position (target_steps settings target) in
      let b = measured_block settings d (block_at real s.planner s.planner.head) in
      if b.step_event_count == 0
      then some (record s { planner = planner })
      else planner_recalculate real (record s { planner = planner })

  -- C's `n / 2`.
  abbrev pub half : ℤ → ℤ
  half (pos n) = pos (n / 2)
  half (negsuc n) = negate (pos ((n + 1) / 2))

  abbrev pub turned : GlobalSettings real → ℕ → ℤ → ℤ
  turned settings idx n = if is_bit settings.dir_invert_mask idx then negate n else n

  unfoldable pub system_convert_corexy_to_x_axis_steps : GlobalSettings real → Vec ℤ → ℤ
  system_convert_corexy_to_x_axis_steps settings steps =
      half (turned settings 0 (plus steps.x steps.y))

  unfoldable pub system_convert_corexy_to_y_axis_steps : GlobalSettings real → Vec ℤ → ℤ
  system_convert_corexy_to_y_axis_steps settings steps =
      half (turned settings 1 (minus steps.x steps.y))

  -- `position` is that of `sys`.
  unfoldable pub plan_sync_position : GlobalSettings real → Vec ℤ → Planner real → Planner real
  unfolding system_convert_corexy_to_x_axis_steps system_convert_corexy_to_y_axis_steps
  plan_sync_position settings position p = record p {
    pl = record p.pl {
      position = record {
        x = system_convert_corexy_to_x_axis_steps settings position;
        y = system_convert_corexy_to_y_axis_steps settings position;
        z = position.z;
      };
    };
  }
