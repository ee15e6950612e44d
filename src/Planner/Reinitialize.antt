-- ===== src/Planner/Reinitialize.antt =====
-- `plan_cycle_reinitialize`: the plan from the stop of a feed hold on.
use cpcbm.Base.Real.{Real}
use cpcbm.Planner.Profile.{Profile}
