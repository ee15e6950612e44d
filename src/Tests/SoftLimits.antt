-- ===== src/Tests/SoftLimits.antt =====
-- A target beyond the soft limits, while the machine runs.
use cpcbm.Base.{ℕ, ◌≡◌, refl, arith, some}
use cpcbm.Base.Real.{Vec}
use cpcbm.System.{State, Sys, fresh_sys}
use cpcbm.Limits.{limits_soft_check}
use cpcbm.Limits.Soft.{hold, rounds, after_wait, limits_soft_check_lem}
use cpcbm.Tests.Natural.{natural}

-- A realtime round that ends the cycle.
abbrev halt : Sys → Sys
halt s = record s { state = State.idle }

abbrev running : Sys
running = record fresh_sys { state = State.cycle }

abbrev far : Vec ℕ
far = record { x = 0; y = 3; z = 0 }

abbrev travel : Vec ℕ
travel = record { x = 0; y = 0; z = 0 }

limits_soft_check_lem_example :
    limits_soft_check natural halt 1 far travel running
    ≡ some (after_wait natural halt (rounds natural halt 1 (hold natural halt running)))
unfolding rounds
limits_soft_check_lem_example =
    limits_soft_check_lem natural halt 0 far travel running refl
      (λ _ _ k l. absurd (omega (arith, l))) (λ _ _. refl)
