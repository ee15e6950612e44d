-- ===== src/Tests/Motion.antt =====
-- The planner's ring on concrete blocks.
use cpcbm.Base.{◌+◌, ◌<◌, ◌≡◌, refl, false, arith, [], ◌∷◌, ◌++◌, length, replicate}
use cpcbm.Base.Int.{pos}
use cpcbm.Planner.{
  block_buffer_size, PlanBlock, Planner, zero_block, plan_discard_current_block,
  plan_get_current_block, plan_check_full_buffer, push_block,
}
use cpcbm.Planner.Queue.{
  blocks, IsRing, first_block, other_blocks, plan_discard_refines, push_block_refines,
}
use cpcbm.Ring.Count.{next, used}
use cpcbm.Tests.Fixed.{fixed}

abbrev long_block : PlanBlock fixed
long_block = record (zero_block fixed) { step_event_count = 100; millimeters = pos 2500 }

-- One block waits, round the end of the ring.
abbrev plan : Planner fixed
plan = record {
  block_buffer = replicate 17 (zero_block fixed) ++ (long_block ∷ []);
  tail = 17;
  head = 0;
  next_head = 1;
  planned = 17;
  pl = record {
    position = record { x = pos 0; y = pos 0; z = pos 0 };
    previous_unit_vec = record { x = pos 0; y = pos 0; z = pos 0 };
    previous_nominal_speed_sqr = pos 0;
  };
}

plan-IsRing : IsRing fixed plan
unfolding next used
plan-IsRing = record {
  storage = refl;
  tail_in = omega arith;
  head_in = omega arith;
  planned_in = omega arith;
  next_is = refl;
  between = omega arith;
}

plan_test : blocks fixed plan ≡ long_block ∷ []
unfolding next used
plan_test = refl

plan_discard_refines_example :
    (plan_get_current_block fixed plan ≡ first_block fixed (blocks fixed plan))
    × (blocks fixed (plan_discard_current_block fixed plan)
        ≡ other_blocks fixed (blocks fixed plan))
    × IsRing fixed (plan_discard_current_block fixed plan)
plan_discard_refines_example = plan_discard_refines fixed plan-IsRing

not_full : plan_check_full_buffer fixed plan ≡ false
unfolding plan_check_full_buffer
not_full = refl

push_block_refines_example :
    (length (blocks fixed plan) + 1 < block_buffer_size)
    × (blocks fixed (push_block fixed plan long_block) ≡ blocks fixed plan ++ (long_block ∷ []))
    × IsRing fixed (push_block fixed plan long_block)
push_block_refines_example = push_block_refines fixed long_block plan-IsRing not_full
