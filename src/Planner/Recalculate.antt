-- ===== src/Planner/Recalculate.antt =====
-- common_src/planner.c: `planner_recalculate`, and what it asks of stepper.c.
use cpcbm.Base.{ℕ, zero, suc, Bool, true, Option, none, some, ◌==◌, if◌then◌else◌, get_or, set}
use cpcbm.Base.Real.{Real}
use cpcbm.Planner.{
  block_buffer_size, plan_next_block_index, plan_prev_block_index, PlanBlock, Planner, zero_block,
}

module _ (real : Real) where
  open real use {R, decimal, add, mul, lt, eq}

  -- What the recalculation uses of stepper.c: the index of the block that `pl_block` points to, and
  -- two fields of `prep`.
  pub record Prep : Type 0 where
    pub pl_block : Option ℕ
    pub flag_partial_block : Bool
    pub current_speed : R

  pub record Plan : Type 0 where
    pub planner : Planner real
    pub prep : Prep

  abbrev pub block_at : Planner real → ℕ → PlanBlock real
  block_at p i = get_or p.block_buffer i (zero_block real)

  -- `block_buffer[i].entry_speed_sqr = v`
  abbrev pub set_entry_speed : ℕ → R → Plan → Plan
  set_entry_speed i v s = record s {
    planner = record s.planner {
      block_buffer =
          set s.planner.block_buffer i (record (block_at s.planner i) { entry_speed_sqr = v });
    };
  }

  abbrev pub set_planned : ℕ → Plan → Plan
  set_planned i s = record s { planner = record s.planner { planned = i } }

  -- `2*block->acceleration*block->millimeters`
  abbrev pub speed_change : PlanBlock real → R
  speed_change b = mul (mul (decimal 2 0) b.acceleration) b.millimeters

  -- `pl_block`, where it is not NULL.
  abbrev pub update_block : Option ℕ → Plan → Plan
  update_block none s = s
  update_block (some i) s =
      record (set_entry_speed i (mul s.prep.current_speed s.prep.current_speed) s) {
        prep = record s.prep { pl_block = none; flag_partial_block = true };
      }

  unfoldable pub st_update_plan_block_parameters : Plan → Plan
  st_update_plan_block_parameters s = update_block s.prep.pl_block s

  -- The last block, from which the machine has to stop.
  unfoldable pub plan_last : ℕ → Plan → Plan
  plan_last i s =
      let last = block_at s.planner i in
      set_entry_speed i
        (if lt last.max_entry_speed_sqr (speed_change last)
          then last.max_entry_speed_sqr
          else speed_change last)
        s

  -- The entry speed of a block from which the next one can be reached.
  unfoldable pub plan_entry : ℕ → ℕ → Plan → Plan
  plan_entry i j s =
      let current = block_at s.planner i in
      let entry_speed_sqr = add ((block_at s.planner j).entry_speed_sqr) (speed_change current) in
      if eq current.entry_speed_sqr current.max_entry_speed_sqr
      then s
      else if lt entry_speed_sqr current.max_entry_speed_sqr
      then set_entry_speed i entry_speed_sqr s
      else set_entry_speed i current.max_entry_speed_sqr s

  abbrev pub update_if_tail : ℕ → Plan → Plan
  update_if_tail i s = if i == s.planner.tail then st_update_plan_block_parameters s else s

  -- The loop of the reverse pass; `none` where the fuel is not enough.
  unfoldable pub reverse_pass : ℕ → ℕ → ℕ → Plan → Option Plan
  unfolding plan_prev_block_index st_update_plan_block_parameters plan_entry
  reverse_pass zero block_index next s = none
  reverse_pass (suc fuel) block_index next s =
      let before = plan_prev_block_index block_index in
      let rest =
        reverse_pass fuel before block_index
          (plan_entry block_index next (update_if_tail before s)) in
      if block_index == s.planner.planned then some s else rest

  -- A step of the forward pass: the next block's speed is one that can be reached.
  unfoldable pub reach_entry : ℕ → ℕ → Plan → Plan
  reach_entry i j s =
      let current = block_at s.planner i in
      let next = block_at s.planner j in
      let entry_speed_sqr = add current.entry_speed_sqr (speed_change current) in
      if lt current.entry_speed_sqr next.entry_speed_sqr
      then (if lt entry_speed_sqr next.entry_speed_sqr
          then set_planned j (set_entry_speed j entry_speed_sqr s)
          else s)
      else s

  unfoldable pub mark_maximum : ℕ → Plan → Plan
  mark_maximum j s =
      let next = block_at s.planner j in
      if eq next.entry_speed_sqr next.max_entry_speed_sqr then set_planned j s else s

  -- The loop of the forward pass.
  unfoldable pub forward_pass : ℕ → ℕ → ℕ → Plan → Option Plan
  unfolding plan_next_block_index reach_entry mark_maximum
  forward_pass zero block_index next s = none
  forward_pass (suc fuel) block_index next s =
      let rest =
        forward_pass fuel (plan_next_block_index block_index) block_index
          (mark_maximum block_index (reach_entry next block_index s)) in
      if block_index == s.planner.head then some s else rest

  -- The reverse pass behind the last block.
  unfoldable pub reverse_from : ℕ → Plan → Option Plan
  reverse_from last s =
      let block_index = plan_prev_block_index last in
      if block_index == s.planner.planned
      then some (update_if_tail block_index s)
      else reverse_pass block_buffer_size block_index last s

  abbrev pub forward_from : Plan → Option Plan
  forward_from s =
      forward_pass block_buffer_size (plan_next_block_index s.planner.planned) s.planner.planned s

  unfoldable pub planner_recalculate : Plan → Option Plan
  planner_recalculate s =
      let last = plan_prev_block_index s.planner.head in
      if last == s.planner.planned
      then some s
      else elim (reverse_from last (plan_last last s)) [ none ↦ none | some r ↦ forward_from r ]

  unfoldable pub plan_cycle_reinitialize : Plan → Option Plan
  plan_cycle_reinitialize s =
      let updated = st_update_plan_block_parameters s in
      planner_recalculate (set_planned updated.planner.tail updated)
