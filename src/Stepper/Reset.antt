-- ===== src/Stepper/Reset.antt =====
-- common_src/stepper.c: `st_reset`, and the interrupt that ends a step pulse.
use cpcbm.Base.{ℕ, false, none}
use cpcbm.Base.Bits.{no_bits}
use cpcbm.Base.Real.{Real}
use cpcbm.Settings.Global.{port_invert_mask, step_bit, direction_bit}
use cpcbm.Stepper.{Stepper, st_go_idle}
use cpcbm.Stepper.Prepare.{Preparation, accel}

-- The pins go back to rest; the timer's flags are not modelled.
unfoldable pub pulse_timer_isr : Stepper → Stepper
pulse_timer_isr s = record s { step_port = s.step_port_invert_mask }

-- What `st_reset` leaves of the interrupt's state, for the invert masks of the settings.
unfoldable pub reset_stepper : ℕ → ℕ → Stepper → Stepper
unfolding st_go_idle port_invert_mask
reset_stepper step_invert_mask dir_invert_mask s =
    let step_mask = port_invert_mask step_bit step_invert_mask in
    let dir_mask = port_invert_mask direction_bit dir_invert_mask in
    record (st_go_idle s) {
      counter = record { x = 0; y = 0; z = 0 };
      step_outbits = no_bits;
      dir_outbits = no_bits;
      steps = record { x = 0; y = 0; z = 0 };
      step_count = 0;
      exec_block_index = 0;
      exec_block = none;
      exec_segment = none;
      segment_buffer_tail = 0;
      segment_buffer_head = 0;
      busy = false;
      step_port_invert_mask = step_mask;
      dir_port_invert_mask = dir_mask;
      step_port = step_mask;
      direction_port = dir_mask;
    }

module _ (real : Real) where
  open real use {decimal}

  unfoldable pub st_reset : ℕ → ℕ → Preparation real → Preparation real
  unfolding reset_stepper
  st_reset step_invert_mask dir_invert_mask s = record s {
    plan = record s.plan {
      prep = record { pl_block = none; flag_partial_block = false; current_speed = decimal 0 0 };
    };
    st_block_index = 0;
    steps_remaining = decimal 0 0;
    step_per_mm = decimal 0 0;
    req_mm_increment = decimal 0 0;
    dt_remainder = decimal 0 0;
    ramp_type = accel;
    mm_complete = decimal 0 0;
    maximum_speed = decimal 0 0;
    exit_speed = decimal 0 0;
    accelerate_until = decimal 0 0;
    decelerate_after = decimal 0 0;
    segment_next_head = 1;
    stepper = reset_stepper step_invert_mask dir_invert_mask s.stepper;
  }
