-- ===== src/Tests/Speeds.antt =====
-- The recalculation of three blocks of which two are not planned, round the end of the ring; the last one is new.
use cpcbm.Base.{
  inr, ℕ, zero, suc, ◌+◌, ◌≡◌, ◌<◌, refl, arith, Option, none, some, List, [], ◌∷◌, ◌++◌, replicate,
  false,
}
use cpcbm.Base.Int.{pos}
use cpcbm.Planner.{PlanBlock, Planner, zero_block, plan_prev_block_index, plan_next_block_index}
use cpcbm.Planner.Recalculate.{
  Plan, planner_recalculate, reverse_from, reverse_pass, forward_pass, plan_last, plan_entry,
  reach_entry, mark_maximum, st_update_plan_block_parameters,
}
use cpcbm.Planner.Profile.{Profile, Le, Fits}
use cpcbm.Planner.Speeds.{profile}
use cpcbm.Planner.Pushed.{IsPushed}
use cpcbm.Planner.Forward.{IsReached, planner_recalculate-IsReached}
use cpcbm.Tests.Natural.{natural, natural-Order}

abbrev block : ℕ → PlanBlock natural
block speed = record (zero_block natural) {
  entry_speed_sqr = speed;
  max_entry_speed_sqr = 50;
  acceleration = 2;
  millimeters = 5;
}

abbrev ring : Planner natural
ring = record {
  block_buffer = block 99 ∷ (replicate 15 (zero_block natural) ++ (block 15 ∷ block 0 ∷ []));
  tail = 16;
  head = 1;
  next_head = 2;
  planned = 16;
  pl = record {
    position = record { x = pos 0; y = pos 0; z = pos 0 };
    previous_unit_vec = record { x = 0; y = 0; z = 0 };
    previous_nominal_speed_sqr = 0;
  };
}

-- The first block is being executed, with a speed of 4.
abbrev pub plan : Plan natural
plan = record {
  planner = ring;
  prep = record { pl_block = some 16; flag_partial_block = false; current_speed = 4 };
}

abbrev speeds : Option (Plan natural) → List ℕ
speeds none = []
speeds (some s) = let f = profile natural 16 s.planner in f.entry 0 ∷ f.entry 1 ∷ f.entry 2 ∷ []

recalculated : speeds (planner_recalculate natural plan) ≡ (16 ∷ 36 ∷ 20 ∷ [])
unfolding planner_recalculate reverse_from reverse_pass forward_pass plan_last plan_entry
    reach_entry mark_maximum st_update_plan_block_parameters plan_prev_block_index
    plan_next_block_index
recalculated = refl

abbrev start : Profile natural
start = profile natural 16 ring

start_limited : (o : ℕ) → o < 2 → Le natural (start.entry o) (start.limit o)
start_limited zero h = refl
start_limited (suc zero) h = refl
start_limited (suc (suc n)) h = absurd (omega arith)

start_slows :
    (o : ℕ) → suc o < 2 → Le natural (start.entry o) (start.entry (suc o) + start.change o)
start_slows zero h = refl
start_slows (suc n) h = absurd (omega arith)

start_stops : (o : ℕ) → suc o ≡ 2 → Le natural (start.entry o) (start.change o)
start_stops zero e = refl
start_stops (suc zero) e = refl
start_stops (suc (suc n)) e = absurd (omega (arith, e))

start_moves : (o : ℕ) → o < 2 → Le natural 0 (start.change o)
start_moves zero h = refl
start_moves (suc zero) h = refl
start_moves (suc (suc n)) h = absurd (omega arith)

speed-Fits : Fits natural start 2 0 16
speed-Fits = record {
  limited = λ _. refl;
  slows = λ l. refl;
  stops = λ e. absurd (omega (arith, e));
  reached = λ o e. absurd (omega (arith, e));
}

-- The entry speed of the last block is not within its limit.
plan-IsPushed : IsPushed natural start plan 16 0 2
plan-IsPushed = record {
  ring = record {
    tail_is = refl;
    storage = refl;
    size = omega arith;
    tail_in = omega arith;
    head_is = refl;
    planned_is = refl;
    planned_in = omega arith;
  };
  behind = omega arith;
  can_stop = record {
    same_limit = λ o l. refl;
    same_change = λ o l. refl;
    limited = λ o _ l. start_limited o l;
    slows = start_slows;
    stops = start_stops;
    moves = start_moves;
  };
  can_reach = λ o l. absurd (omega arith);
  slow = λ i e. (cc e, speed-Fits);
  new_limit = refl;
  new_change = refl;
  limit_positive = refl;
  change_positive = refl;
}

planner_recalculate-IsReached_example :
    (r : Plan natural) × (planner_recalculate natural plan ≡ some r)
    × IsReached natural (start) r 16 2 3
planner_recalculate-IsReached_example =
    planner_recalculate-IsReached natural (start) natural-Order plan 16 0 2 (inr plan-IsPushed)

-- Two blocks, at the end of a feed hold.
abbrev held : Plan natural
held = record {
  planner = record ring { head = 0; next_head = 1 };
  prep = record { pl_block = some 16; flag_partial_block = false; current_speed = 0 };
}
