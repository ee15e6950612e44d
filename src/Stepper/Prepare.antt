-- ===== src/Stepper/Prepare.antt =====
-- common_src/stepper.c, `st_prep_buffer`: how a block of the planner is loaded for the interrupt, and
-- how a segment is made from the distance and the time that the speed profile gives it.
use cpcbm.Base.{
  ℕ, ◌+◌, ◌-◌, ◌*◌, ◌/◌, ◌%◌, ◌^◌, Bool, true, false, ◌&&◌, Option, none, some, ◌==◌, ltb,
  if◌then◌else◌, set,
}
use cpcbm.Base.Bits.{Bits}
use cpcbm.Base.Real.{Real, Vec}
use cpcbm.System.{State}
use cpcbm.Planner.{PlanBlock, Planner, plan_get_current_block, plan_discard_current_block}
use cpcbm.Planner.Recalculate.{Plan, block_at, plan_cycle_reinitialize}
use cpcbm.Stepper.{StBlock, Segment, Stepper, segment_at, segment_buffer_size}

-- RAMP_*
pub data Ramp : Type 0 where
  accel cruise decel : Ramp

-- AMASS_LEVEL1, 2 and 3, and TICKS_PER_MICROSECOND
abbrev pub amass_level1 : ℕ
amass_level1 = 2000

abbrev pub amass_level2 : ℕ
amass_level2 = 4000

abbrev pub amass_level3 : ℕ
amass_level3 = 8000

abbrev pub ticks_per_microsecond : ℕ
ticks_per_microsecond = 16

abbrev pub is_suspended : State → Bool
is_suspended State.hold = true
is_suspended State.motion_cancel = true
is_suspended State.safety_door = true
is_suspended _ = false

abbrev pub bits_of : ℕ → Bits
bits_of n i = n / 2 ^ i % 2 == 1

-- The level of smoothing for the timer cycles of a step.
unfoldable pub amass_level_of : ℕ → ℕ
amass_level_of cycles =
    if ltb cycles amass_level1
    then 0
    else if ltb cycles amass_level2
    then 1
    else if ltb cycles amass_level3
    then 2
    else 3

-- The level, the steps and the timing of a segment; `n_step` has 16 bits.
unfoldable pub time_segment : ℕ → ℕ → ℕ → Segment
unfolding amass_level_of
time_segment st_block_index n_step cycles =
    let level = amass_level_of cycles in
    let scaled = cycles / 2 ^ level in
    record {
      n_step = n_step * 2 ^ level % 2 ^ 16;
      st_block_index = st_block_index;
      cycles_per_tick = if ltb scaled (2 ^ 16) then scaled else 0xffff;
      amass_level = level;
    }

-- The data of a planner's block, scaled by the highest level.
unfoldable pub scaled_block : ℕ → Vec ℕ → ℕ → StBlock
scaled_block direction_bits steps step_event_count = record {
  direction_bits = bits_of direction_bits;
  steps = record { x = steps.x * 8 % 2 ^ 32; y = steps.y * 8 % 2 ^ 32; z = steps.z * 8 % 2 ^ 32 };
  step_event_count = step_event_count * 8 % 2 ^ 32;
}

module _ (real : Real) where
  open real use {R, decimal, add, sub, mul, div, sqrt, ceil, lt, of_nat, trunc_u16, trunc_u32}

  -- st_prep_t and the other variables of `st_prep_buffer`, with the planner and the interrupt's state.
  pub record Preparation : Type 0 where
    pub plan : Plan real
    pub st_block_index : ℕ
    pub steps_remaining : R
    pub step_per_mm : R
    pub req_mm_increment : R
    pub dt_remainder : R
    pub ramp_type : Ramp
    pub mm_complete : R
    pub maximum_speed : R
    pub exit_speed : R
    pub accelerate_until : R
    pub decelerate_after : R
    pub segment_next_head : ℕ
    pub stepper : Stepper

  abbrev pub planner_of : Preparation → Planner real
  planner_of s = s.plan.planner

  abbrev pub current_block : ℕ → Preparation → PlanBlock real
  current_block i s = block_at real s.plan.planner i

  abbrev pub set_block : ℕ → PlanBlock real → Preparation → Preparation
  set_block i block s = record s {
    plan = record s.plan {
      planner = record s.plan.planner { block_buffer = set s.plan.planner.block_buffer i block };
    };
  }

  abbrev pub set_speed : R → Preparation → Preparation
  set_speed speed s = record s {
    plan = record s.plan { prep = record s.plan.prep { current_speed = speed } };
  }

  -- The index of the stepper's block that comes next.
  abbrev pub next_st_block : ℕ → ℕ
  next_st_block i = if i + 1 == segment_buffer_size - 1 then 0 else i + 1

  -- A block that is new to the stepper: its data, and the steps that remain.
  unfoldable pub load_new_block : ℕ → Preparation → Preparation
  unfolding scaled_block
  load_new_block i s =
      let block = current_block i s in
      let index = next_st_block s.st_block_index in
      let steps = of_nat block.step_event_count in
      let per_mm = div steps block.millimeters in
      let loaded = record s {
        st_block_index = index;
        steps_remaining = steps;
        step_per_mm = per_mm;
        req_mm_increment = div (decimal 125 2) per_mm;
        dt_remainder = decimal 0 0;
        stepper = record s.stepper {
          st_block_buffer =
              set s.stepper.st_block_buffer index
                (scaled_block block.direction_bits block.steps block.step_event_count);
        };
      } in
      if is_suspended s.stepper.state
      then set_block i (record block { entry_speed_sqr = mul s.exit_speed s.exit_speed })
          (set_speed s.exit_speed loaded)
      else set_speed (sqrt block.entry_speed_sqr) loaded

  abbrev pub point_at : Option ℕ → Bool → Preparation → Preparation
  point_at pl_block flag s = record s {
    plan = record s.plan {
      prep = record s.plan.prep { pl_block = pl_block; flag_partial_block = flag };
    };
  }

  -- The block to prepare; `none` where the planner has none.
  unfoldable pub load_block : Preparation → Option Preparation
  unfolding load_new_block
  load_block s =
      let tail = s.plan.planner.tail in
      elim (plan_get_current_block real s.plan.planner) [
        | none ↦ none
        | some block ↦
            if s.plan.prep.flag_partial_block
            then some (point_at (some tail) false s)
            else some (load_new_block tail (point_at (some tail) false s))
      ]

  -- Whether the filling of the buffer goes on.
  pub data Outcome : Type 0 where
    continue : Preparation → Outcome
    bail : Option Preparation → Outcome

  abbrev pub with_plan : Preparation → Option (Plan real) → Option Preparation
  with_plan s none = none
  with_plan s (some plan) = some (record s { plan = plan })

  abbrev pub stopped : ℕ → R → Preparation → Preparation
  stopped i steps s =
      set_block i (record (current_block i s) { millimeters = div steps s.step_per_mm })
        (set_speed (decimal 0 0) (record s { dt_remainder = decimal 0 0; steps_remaining = steps }))

  -- The end of a feed hold: what is left of the block is planned again.
  unfoldable pub stop_here : ℕ → R → Preparation → Option Preparation
  stop_here i steps s =
      with_plan (stopped i steps s) (plan_cycle_reinitialize real ((stopped i steps s).plan))

  -- The new segment, in the cell at the head.
  unfoldable pub push_segment : Segment → Preparation → Preparation
  push_segment segment s =
      let next = s.segment_next_head in
      record s {
        segment_next_head = if next + 1 == segment_buffer_size then 0 else next + 1;
        stepper = record s.stepper {
          segment_buffer = set s.stepper.segment_buffer s.stepper.segment_buffer_head segment;
          segment_buffer_head = next;
        };
      }

  -- What follows a segment, where `mm_remaining` is left of the block.
  unfoldable pub after_segment : ℕ → R → R → Preparation → Outcome
  unfolding stop_here
  after_segment i mm_remaining steps_remaining s =
      if lt s.mm_complete mm_remaining
      then continue (
          set_block i (record (current_block i s) { millimeters = mm_remaining })
            (record s { steps_remaining = steps_remaining }))
      else if lt (decimal 0 0) mm_remaining
      then bail (stop_here i (ceil steps_remaining) s)
      else continue (record s {
        plan = record s.plan {
          planner = plan_discard_current_block real s.plan.planner;
          prep = record s.plan.prep { pl_block = none };
        };
      })

  -- The steps from one distance to the end of the block to the next.
  abbrev pub steps_between : R → R → ℕ
  steps_between last_steps_remaining steps_remaining =
      trunc_u16 (sub (ceil last_steps_remaining) (ceil steps_remaining))

  -- The cell at the head, which stays free, with a segment of no steps.
  abbrev pub touch_segment : Preparation → Preparation
  touch_segment s =
      let touched = record (segment_at s.stepper s.stepper.segment_buffer_head) {
        n_step = 0;
        st_block_index = s.st_block_index;
      } in
      record s {
        stepper = record s.stepper {
          segment_buffer = set s.stepper.segment_buffer s.stepper.segment_buffer_head touched;
        };
      }

  -- `steps_remaining`, `n_step` and `inv_rate` at a distance from the end of the block.
  abbrev pub steps_at : R → Preparation → R
  steps_at mm_remaining s = mul s.step_per_mm mm_remaining

  abbrev pub n_step_to : R → Preparation → ℕ
  n_step_to mm_remaining s = steps_between s.steps_remaining (steps_at mm_remaining s)

  abbrev pub inv_rate : R → R → Preparation → R
  inv_rate mm_remaining dt s =
      div (add dt s.dt_remainder) (sub (ceil s.steps_remaining) (steps_at mm_remaining s))

  -- `cycles`, the segment to that distance, and the time of the partial step that is left.
  abbrev pub cycles_to : R → R → Preparation → ℕ
  cycles_to mm_remaining dt s = trunc_u32 (
      ceil (
        mul (of_nat (ticks_per_microsecond * 60))
          (mul (of_nat 1000000) (inv_rate mm_remaining dt s))))

  unfoldable pub segment_to : R → R → Preparation → Segment
  unfolding time_segment
  segment_to mm_remaining dt s =
      time_segment s.st_block_index (n_step_to mm_remaining s) (cycles_to mm_remaining dt s)

  abbrev pub keep_remainder : R → R → Preparation → Preparation
  keep_remainder mm_remaining dt s =
      let steps_remaining = steps_at mm_remaining s in
      record s {
        dt_remainder =
            mul (sub (ceil steps_remaining) steps_remaining) (inv_rate mm_remaining dt s);
      }

  -- A round of the loop from the point where the profile has given `mm_remaining` and `dt`, for the
  -- block with index `i`.
  unfoldable pub finish_segment : ℕ → R → R → Preparation → Outcome
  unfolding stop_here segment_to push_segment after_segment
  finish_segment i mm_remaining dt s =
      if n_step_to mm_remaining s == 0 && is_suspended s.stepper.state
      then bail (stop_here i (ceil (steps_at mm_remaining s)) (touch_segment s))
      else after_segment i mm_remaining (steps_at mm_remaining s)
          (push_segment (segment_to mm_remaining dt s) (keep_remainder mm_remaining dt s))
