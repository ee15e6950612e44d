-- ===== src/Planner.antt =====
-- common_src/planner.c: the ring of motion blocks between the main program and the stepper driver.
-- `Recalculate` has the recalculation of the speeds, `Line` the computation of a block.
pub mod Queue
pub mod Recalculate
pub mod Profile
pub mod Speeds
pub mod Reverse
pub mod Pushed
pub mod Forward
pub mod Reinitialize
pub mod Partial
pub mod Line
use cpcbm.Base.{
  ℕ, ◌+◌, ◌-◌, ◌%◌, Bool, true, false, List, Option, none, some, leb, ◌==◌, if◌then◌else◌, get_or,
  set,
}
use cpcbm.Base.Int.{ℤ, pos}
use cpcbm.Base.Real.{Real, Vec}

abbrev pub block_buffer_size : ℕ
block_buffer_size = 18

unfoldable pub plan_next_block_index : ℕ → ℕ
plan_next_block_index block_index =
    let i = (block_index + 1) % 256 in if i == block_buffer_size then 0 else i

unfoldable pub plan_prev_block_index : ℕ → ℕ
plan_prev_block_index block_index =
    if block_index == 0 then block_buffer_size - 1 else block_index - 1

module _ (real : Real) where
  open real use {R, decimal, sqrt}

  -- plan_block_t
  pub record PlanBlock : Type 0 where
    pub direction_bits : ℕ
    pub steps : Vec ℕ
    pub step_event_count : ℕ
    pub entry_speed_sqr : R
    pub max_entry_speed_sqr : R
    pub max_junction_speed_sqr : R
    pub nominal_speed_sqr : R
    pub acceleration : R
    pub millimeters : R

  -- planner_t
  pub record Previous : Type 0 where
    pub position : Vec ℤ
    pub previous_unit_vec : Vec R
    pub previous_nominal_speed_sqr : R

  -- The file's variables.
  pub record Planner : Type 0 where
    pub block_buffer : List PlanBlock
    pub tail : ℕ
    pub head : ℕ
    pub next_head : ℕ
    pub planned : ℕ
    pub pl : Previous

  abbrev zero_unit_vec : Vec R
  zero_unit_vec = record { x = decimal 0 0; y = decimal 0 0; z = decimal 0 0 }

  -- What a block is before it is written, and what a read out of range would give.
  abbrev pub zero_block : PlanBlock
  zero_block = record {
    direction_bits = 0;
    steps = record { x = 0; y = 0; z = 0 };
    step_event_count = 0;
    entry_speed_sqr = decimal 0 0;
    max_entry_speed_sqr = decimal 0 0;
    max_junction_speed_sqr = decimal 0 0;
    nominal_speed_sqr = decimal 0 0;
    acceleration = decimal 0 0;
    millimeters = decimal 0 0;
  }

  unfoldable pub plan_reset : Planner → Planner
  plan_reset p = record p {
    tail = 0;
    head = 0;
    next_head = 1;
    planned = 0;
    pl = record {
      position = record { x = pos 0; y = pos 0; z = pos 0 };
      previous_unit_vec = zero_unit_vec;
      previous_nominal_speed_sqr = decimal 0 0;
    };
  }

  unfoldable pub plan_discard_current_block : Planner → Planner
  unfolding plan_next_block_index
  plan_discard_current_block p =
      if p.head == p.tail
      then p
      else (let block_index = plan_next_block_index p.tail in
          record p {
            planned = if p.tail == p.planned then block_index else p.planned;
            tail = block_index;
          })

  unfoldable pub plan_get_current_block : Planner → Option PlanBlock
  plan_get_current_block p =
      if p.head == p.tail then none else some (get_or p.block_buffer p.tail zero_block)

  unfoldable pub plan_get_exec_block_exit_speed : Planner → R
  unfolding plan_next_block_index
  plan_get_exec_block_exit_speed p =
      let block_index = plan_next_block_index p.tail in
      if block_index == p.head
      then decimal 0 0
      else sqrt ((get_or p.block_buffer block_index zero_block).entry_speed_sqr)

  unfoldable pub plan_check_full_buffer : Planner → Bool
  plan_check_full_buffer p = p.tail == p.next_head

  unfoldable pub plan_get_block_buffer_count : Planner → ℕ
  plan_get_block_buffer_count p =
      if leb p.tail p.head
      then (p.head - p.tail) % 256
      else (block_buffer_size - (p.tail - p.head)) % 256

  -- The end of `plan_buffer_line`: the block that it has written in the cell at the head is in the
  -- ring. The recalculation that follows changes speeds only.
  unfoldable pub push_block : Planner → PlanBlock → Planner
  unfolding plan_next_block_index
  push_block p block = record p {
    block_buffer = set p.block_buffer p.head block;
    head = p.next_head;
    next_head = plan_next_block_index p.next_head;
  }
