-- ===== src/Tests/Buffered.antt =====
-- A line of two steps along X, backwards, from the planner to the stepper driver.
use cpcbm.Base.{ℕ, ◌*◌, ◌≡◌, arith, false, replicate}
use cpcbm.Base.Bits.{no_bits}
use cpcbm.Base.Int.{ℤ, pos, negsuc}
use cpcbm.Base.Real.{Vec}
use cpcbm.GCode.{zero_vec}
use cpcbm.Settings.Global.{GlobalSettings}
use cpcbm.Planner.{Planner, zero_block, block_buffer_size, push_block}
use cpcbm.Planner.Line.{measure_axis, measured_block, store_block, timed_block, buffer_block}
use cpcbm.Stepper.Prepare.{scaled_block}
use cpcbm.Stepper.Run.{Run}
use cpcbm.Stepper.Planned.{measured, buffered, plan_buffer_line-moves}
use cpcbm.Tests.Fixed.{fixed}
use cpcbm.Tests.Steps.{origin, after, whole_block}

abbrev each : ℕ → Vec ℤ
each n = record { x = pos n; y = pos n; z = pos n }

abbrev pub settings : GlobalSettings fixed
settings = record {
  steps_per_mm = each 1000;
  max_rate = each 500000;
  acceleration = each 36000000;
  max_travel = each 200000;
  pulse_microseconds = 10;
  step_invert_mask = 0;
  dir_invert_mask = 0;
  stepper_idle_lock_time = 25;
  status_report_mask = 3;
  junction_deviation = pos 20;
  arc_tolerance = pos 2;
  flags = no_bits;
  homing_dir_mask = 0;
  homing_feed_rate = pos 25000;
  homing_seek_rate = pos 500000;
  homing_debounce_delay = 250;
  homing_pulloff = pos 1000;
  spindle_pwm_period = 1000;
  spindle_pwm_max_time_on = 900;
  spindle_pwm_min_time_on = 100;
  spindle_pwm_enable_at_start = 0;
}

abbrev planner : Planner fixed
planner = record {
  block_buffer = replicate block_buffer_size (zero_block fixed);
  tail = 0;
  head = 0;
  next_head = 1;
  planned = 0;
  pl = record {
    position = origin;
    previous_unit_vec = zero_vec fixed;
    previous_nominal_speed_sqr = pos 0;
  };
}

abbrev target : Vec ℤ
target = record { x = negsuc 1999; y = pos 0; z = pos 0 }

asks :
    Run
      (scaled_block
        ((buffered fixed settings target (pos 100000) false planner).direction_bits)
        ((buffered fixed settings target (pos 100000) false planner).steps)
        ((buffered fixed settings target (pos 100000) false planner).step_event_count))
      1
      origin
      ((measured fixed settings target (pos 100000) false planner).step_event_count * 8)
      (after 4)
unfolding buffer_block store_block push_block timed_block measured_block measure_axis
asks = whole_block

plan_buffer_line-moves_example :
    ((after 4).position.x ≡ negsuc 1)
    × ((after 4).position.y ≡ negsuc 1)
    × ((after 4).position.z ≡ pos 0)
unfolding measured_block measure_axis
plan_buffer_line-moves_example =
    plan_buffer_line-moves fixed settings target (pos 100000) false planner 1 origin (after 4)
      (omega arith) (omega arith) (omega arith) asks
