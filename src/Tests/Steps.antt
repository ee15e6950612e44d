-- ===== src/Tests/Steps.antt =====
-- A block of two steps, which moves the motors A and B backwards by two, in one segment.
use cpcbm.Base.{[], List, ℕ, zero, suc, ◌≡◌, refl, arith, true, false, none, ◌∷◌, replicate, map}
use cpcbm.Base.Bits.{no_bits}
use cpcbm.Base.Int.{ℤ, pos, negsuc}
use cpcbm.Base.Real.{Vec}
use cpcbm.System.{State}
use cpcbm.Probe.{Readings}
use cpcbm.Stepper.{
  Segment, Stepper, zero_st_block, zero_segment, advance_counter, trace_axis, load_segment,
  end_event, step_event, main_timer_isr, st_wake_up,
}
use cpcbm.Stepper.Prepare.{
  segment_to, amass_level_of, time_segment, push_segment, after_segment, stop_here, decel,
  scaled_block, Preparation, finish_segment,
}
use cpcbm.Stepper.Run.{Run, begin, event}
use cpcbm.Stepper.Block.{planned_steps_made}
use cpcbm.Planner.{plan_prev_block_index, plan_next_block_index}
use cpcbm.Planner.Recalculate.{
  plan_cycle_reinitialize, planner_recalculate, reverse_from, reverse_pass, forward_pass, plan_last,
  plan_entry, reach_entry, mark_maximum, st_update_plan_block_parameters,
}
use cpcbm.Ring.Count.{next, used}
use cpcbm.Stepper.Kept.{IsFilling}
use cpcbm.Stepper.Filled.{view}
use cpcbm.Stepper.Ramps.{ramp_loop, ramp_once}
use cpcbm.Stepper.Fill.{
  Filling, ready, endless, out_of_rounds, prep_round, make_segment, fill, st_prep_buffer,
}
use cpcbm.Stepper.Feeds.{Feeds, st_prep_buffer-Feeds}
use cpcbm.Stepper.Reset.{st_reset}
use cpcbm.Stepper.Running.{IsRunning}
use cpcbm.Stepper.Reached.{itself, steps, wakes, st_reset-Reached}
use cpcbm.Tests.Natural.{natural}
use cpcbm.Tests.Speeds.{plan}

abbrev pub origin : Vec ℤ
origin = record { x = pos 0; y = pos 0; z = pos 0 }

abbrev pub asked : Vec ℕ
asked = record { x = 2; y = 2; z = 0 }

abbrev pub segment : Segment
segment = record { n_step = 4; st_block_index = 1; cycles_per_tick = 1000; amass_level = 1 }

abbrev pub start : Stepper
start = record {
  counter = record { x = 0; y = 0; z = 0 };
  step_outbits = no_bits;
  dir_outbits = no_bits;
  steps = record { x = 0; y = 0; z = 0 };
  step_count = 0;
  exec_block_index = 0;
  exec_block = none;
  exec_segment = none;
  st_block_buffer = zero_st_block ∷ (scaled_block 1040 asked 2 ∷ replicate 3 zero_st_block);
  segment_buffer = segment ∷ replicate 5 zero_segment;
  segment_buffer_tail = 0;
  segment_buffer_head = 1;
  step_port_invert_mask = no_bits;
  dir_port_invert_mask = no_bits;
  busy = false;
  timer_period = 0;
  timer_interrupt = true;
  step_port = no_bits;
  direction_port = no_bits;
  disable_pin = false;
  position = origin;
  homing_axis_lock = no_bits;
  state = State.cycle;
  any_alarm = false;
  cycle_stop = false;
  invert_st_enable = false;
  stepper_idle_lock_time = 25;
  probe = record { active = false; probe_position = origin; invert = false; motion_cancel = false };
}

abbrev pub pins : Readings
pins = record { first = false; second = false; third = false }

abbrev pub after : ℕ → Stepper
after zero = start
after (suc n) = main_timer_isr pins (after n)

pub whole_block : Run (scaled_block 1040 asked 2) 1 origin 16 (after 4)
unfolding main_timer_isr step_event load_segment trace_axis end_event advance_counter scaled_block
whole_block =
    event pins
      (event pins
        (event pins
          (begin start pins
            (record {
              ready = refl;
              between = refl;
              other = λ e. absurd (omega (arith, e));
              block_is = refl;
              goes_on = record {
                waiting = λ e q. absurd (omega (arith, q));
                of_block = refl;
                level = omega arith;
              };
            })
            refl refl refl)
          (record { waiting = λ e. absurd (cc e); of_block = refl; level = omega arith }) refl refl)
        (record { waiting = λ e. absurd (cc e); of_block = refl; level = omega arith }) refl refl)
      (record { waiting = λ e. absurd (cc e); of_block = refl; level = omega arith }) refl refl

planned_steps_made_example :
    ((after 4).position.x ≡ negsuc 1)
    × ((after 4).position.y ≡ negsuc 1)
    × ((after 4).position.z ≡ pos 0)
planned_steps_made_example =
    planned_steps_made 1040 asked 2 1 origin (after 4) (omega arith) (omega arith) (omega arith)
      (omega arith) (omega arith) whole_block

abbrev preparation : Preparation natural
preparation = record {
  plan = record plan { prep = record plan.prep { current_speed = 0 } };
  st_block_index = 1;
  steps_remaining = 10;
  step_per_mm = 2;
  req_mm_increment = 1;
  dt_remainder = 0;
  ramp_type = decel;
  mm_complete = 3;
  maximum_speed = 4;
  accelerate_until = 0;
  decelerate_after = 0;
  exit_speed = 0;
  segment_next_head = 2;
  stepper = start;
}

preparation-IsFilling : IsFilling (view natural preparation)
unfolding next used
preparation-IsFilling = record {
  storage = refl;
  head_in = omega arith;
  tail_in = omega arith;
  next_is = refl;
  index_in = omega arith;
  recent = (omega arith, omega arith, tt);
}

abbrev steps_made : Filling natural → List ℕ
steps_made (ready t) = map (λ g. g.n_step) t.stepper.segment_buffer
steps_made endless = []
steps_made out_of_rounds = []

-- The profile ends 3 mm before the end of the block, after four steps.
filled : steps_made (st_prep_buffer natural 5 preparation) ≡ (4 ∷ (4 ∷ replicate 4 0))
unfolding st_prep_buffer fill prep_round make_segment ramp_loop ramp_once finish_segment segment_to
    time_segment amass_level_of push_segment after_segment stop_here plan_cycle_reinitialize
    planner_recalculate reverse_from reverse_pass forward_pass plan_last plan_entry reach_entry
    mark_maximum st_update_plan_block_parameters plan_prev_block_index plan_next_block_index
filled = refl

st_prep_buffer-Feeds_example : Feeds natural 1 start (st_prep_buffer natural 5 preparation)
st_prep_buffer-Feeds_example =
    st_prep_buffer-Feeds natural 5 preparation preparation-IsFilling
      (λ e. absurd (omega (arith, e))) (λ i e. absurd (cc e))

-- After a reset the driver is woken, and the interrupt finds no segment.
abbrev reset_preparation : Preparation natural
reset_preparation = st_reset natural 0 0 preparation

abbrev idle_event : Preparation natural
idle_event = record reset_preparation {
  stepper = main_timer_isr pins (st_wake_up reset_preparation.stepper);
}

st_reset-Reached_example : IsRunning (view natural idle_event)
st_reset-Reached_example =
    st_reset-Reached natural 0 0 preparation idle_event refl (steps pins (wakes itself))
