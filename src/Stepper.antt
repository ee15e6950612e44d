-- ===== src/Stepper.antt =====
-- common_src/stepper.c, for the NUCLEO build with step smoothing (AMASS) and COREXY: the interrupt
-- that traces a block, and the driver's start and stop. The timers' registers are not modelled, but
-- for the period and for whether the interrupt is on; a delay is not either.
pub mod Bresenham
pub mod Trace
pub mod Run
pub mod Executing
pub mod Block
pub mod Prepare
pub mod Ramps
pub mod Fill
pub mod Recent
pub mod Kept
pub mod Filled
pub mod Rounds
pub mod Returns
pub mod Feeds
pub mod Reset
pub mod Planned
pub mod Rings
pub mod Running
pub mod Reached
use cpcbm.Base.{
  ℕ, zero, suc, ◌+◌, ◌-◌, ◌*◌, ◌/◌, ◌%◌, ◌^◌, Bool, true, false, not, ◌&&◌, ◌||◌, List, Option,
  none, some, ◌==◌, ltb, if◌then◌else◌, get_or,
}
use cpcbm.Base.Bits.{Bits, no_bits, with_bit}
use cpcbm.Base.Int.{ℤ, increment, decrement}
use cpcbm.Base.Real.{Vec, Axis, x_axis, y_axis, z_axis, at, put}
use cpcbm.System.{State}
use cpcbm.Probe.{Probe, Readings, probe_state_monitor}

abbrev pub segment_buffer_size : ℕ
segment_buffer_size = 6

abbrev pub max_amass_level : ℕ
max_amass_level = 3

-- st_block_t
pub record StBlock : Type 0 where
  pub direction_bits : Bits
  pub steps : Vec ℕ
  pub step_event_count : ℕ

-- segment_t
pub record Segment : Type 0 where
  pub n_step : ℕ
  pub st_block_index : ℕ
  pub cycles_per_tick : ℕ
  pub amass_level : ℕ

abbrev pub zero_st_block : StBlock
zero_st_block = record {
  direction_bits = no_bits;
  steps = record { x = 0; y = 0; z = 0 };
  step_event_count = 0;
}

abbrev pub zero_segment : Segment
zero_segment = record { n_step = 0; st_block_index = 0; cycles_per_tick = 0; amass_level = 0 }

-- stepper_t, the file's variables, the ports, and what the interrupt uses of `sys` and the settings.
-- The positions are 32-bit numbers, whose overflow is not modelled.
pub record Stepper : Type 0 where
  pub counter : Vec ℕ
  pub step_outbits : Bits
  pub dir_outbits : Bits
  pub steps : Vec ℕ
  pub step_count : ℕ
  pub exec_block_index : ℕ
  pub exec_block : Option ℕ
  pub exec_segment : Option ℕ
  pub st_block_buffer : List StBlock
  pub segment_buffer : List Segment
  pub segment_buffer_tail : ℕ
  pub segment_buffer_head : ℕ
  pub step_port_invert_mask : Bits
  pub dir_port_invert_mask : Bits
  pub busy : Bool
  pub timer_period : ℕ
  pub timer_interrupt : Bool
  pub step_port : Bits
  pub direction_port : Bits
  pub disable_pin : Bool
  pub position : Vec ℤ
  pub homing_axis_lock : Bits
  pub state : State
  pub any_alarm : Bool
  pub cycle_stop : Bool
  pub invert_st_enable : Bool
  pub stepper_idle_lock_time : ℕ
  pub probe : Probe

abbrev pub step_bit : Axis → ℕ
step_bit x_axis = 10
step_bit y_axis = 3
step_bit z_axis = 5

abbrev pub direction_bit : Axis → ℕ
direction_bit x_axis = 4
direction_bit y_axis = 10
direction_bit z_axis = 8

abbrev pub is_homing : State → Bool
is_homing State.homing = true
is_homing _ = false

abbrev pub is_cycle : State → Bool
is_cycle State.cycle = true
is_cycle _ = false

abbrev pub st_block_at : Stepper → ℕ → StBlock
st_block_at s i = get_or s.st_block_buffer i zero_st_block

abbrev pub segment_at : Stepper → ℕ → Segment
segment_at s i = get_or s.segment_buffer i zero_segment

-- `*st.exec_block`
abbrev pub exec_block_of : Option ℕ → List StBlock → StBlock
exec_block_of none buffer = zero_st_block
exec_block_of (some i) buffer = get_or buffer i zero_st_block

abbrev pub block_in : Stepper → StBlock
block_in s = exec_block_of s.exec_block s.st_block_buffer

unfoldable pub st_wake_up : Stepper → Stepper
st_wake_up s =
    let enabled = record s { disable_pin = s.invert_st_enable } in
    if is_cycle s.state || is_homing s.state
    then record enabled {
      dir_outbits = s.dir_port_invert_mask;
      step_outbits = s.step_port_invert_mask;
      timer_interrupt = true;
    }
    else enabled

unfoldable pub st_go_idle : Stepper → Stepper
st_go_idle s =
    let pin_state =
      (not (s.stepper_idle_lock_time == 0xff) || s.any_alarm) && not (is_homing s.state) in
    record s {
      timer_interrupt = false;
      busy = false;
      disable_pin = if s.invert_st_enable then not pin_state else pin_state;
    }

-- A new block: the counters of its lines.
abbrev pub start_block : Segment → Stepper → Stepper
start_block segment s =
    if s.exec_block_index == segment.st_block_index
    then s
    else (let half = (st_block_at s segment.st_block_index).step_event_count / 2 in
        record s {
          exec_block_index = segment.st_block_index;
          exec_block = some segment.st_block_index;
          counter = record { x = half; y = half; z = half };
        })

abbrev pub scale : ℕ → Vec ℕ → Vec ℕ
scale level v = record { x = v.x / 2 ^ level; y = v.y / 2 ^ level; z = v.z / 2 ^ level }

abbrev pub use_block : Segment → Stepper → Stepper
use_block segment s = record s {
  dir_outbits = (block_in s).direction_bits;
  steps = scale segment.amass_level (block_in s).steps;
}

-- The segment at the tail.
unfoldable pub load_segment : Stepper → Stepper
load_segment s =
    let segment = segment_at s s.segment_buffer_tail in
    use_block segment (
      start_block segment (record s {
        exec_segment = some s.segment_buffer_tail;
        timer_period = segment.cycles_per_tick;
        step_count = segment.n_step;
      }))

-- The counter of a line after an event, and whether the axis steps.
unfoldable pub advance_counter : ℕ → ℕ → ℕ → ℕ × Bool
advance_counter step_event_count counter steps =
    let sum = (counter + steps) % 2 ^ 32 in
    if ltb step_event_count sum then (sum - step_event_count, true) else (sum, false)

unfoldable pub trace_axis : Axis → Stepper → Stepper
unfolding advance_counter
trace_axis axis s =
    let block = block_in s in
    let (counter, steps) =
      advance_counter block.step_event_count (at s.counter axis) (at s.steps axis) in
    let here = at s.position axis in
    record s {
      counter = put s.counter axis counter;
      step_outbits = if steps then with_bit (step_bit axis) s.step_outbits else s.step_outbits;
      position =
          if steps
          then put s.position axis
              (if block.direction_bits (direction_bit axis) then decrement here else increment here)
          else s.position;
    }

-- The end of an event: the homing lock, and the end of the segment.
unfoldable pub end_event : Stepper → Stepper
end_event s =
    let locked =
      if is_homing s.state
      then (λ i. s.step_outbits i && s.homing_axis_lock i)
      else s.step_outbits in
    let step_count = (s.step_count + 65535) % 65536 in
    let next_tail =
      if s.segment_buffer_tail + 1 == segment_buffer_size then 0 else s.segment_buffer_tail + 1 in
    record s {
      step_count = step_count;
      exec_segment = if step_count == 0 then none else s.exec_segment;
      segment_buffer_tail = if step_count == 0 then next_tail else s.segment_buffer_tail;
      step_outbits = λ i. if s.step_port_invert_mask i then not (locked i) else locked i;
      busy = false;
    }

unfoldable pub step_event : Readings → Stepper → Stepper
unfolding trace_axis end_event
step_event pins s =
    let monitored = record s {
      probe = probe_state_monitor pins s.position s.probe;
      step_outbits = no_bits;
    } in
    end_event (trace_axis z_axis (trace_axis y_axis (trace_axis x_axis monitored)))

abbrev pub with_segment : Readings → Option ℕ → Stepper → Stepper
with_segment pins (some i) s = step_event pins s
with_segment pins none s =
    if s.segment_buffer_head == s.segment_buffer_tail
    then record (st_go_idle s) { cycle_stop = true }
    else step_event pins (load_segment s)

-- The whole interrupt.
unfoldable pub main_timer_isr : Readings → Stepper → Stepper
unfolding step_event load_segment st_go_idle
main_timer_isr pins s =
    if s.busy
    then s
    else with_segment pins s.exec_segment
        (record s { direction_port = s.dir_outbits; step_port = s.step_outbits; busy = true })
