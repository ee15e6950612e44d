-- ===== src/MotionControl/Reset.antt =====
-- What a reset request leaves behind, whatever state it meets.
use cpcbm.Base.{true, false, not, ◌||◌, [], ◌∷◌, ◌++◌, ◌≡◌, arith}
use cpcbm.System.{Sys, spindle_stop, coolant_stop, st_go_idle}
use cpcbm.MotionControl.{in_cycle_or_homing, is_homing, is_enable_hold, mc_reset}

-- A reset request is kept until the main program reads it, and a second request while one is
-- pending changes nothing: no device is stopped twice.
pub mc_reset_idempotent :
    (s : Sys) → ((mc_reset s).exec.reset ≡ true) × (mc_reset (mc_reset s) ≡ mc_reset s)
unfolding mc_reset
mc_reset_idempotent s = ground arith

-- The first reset request met while the machine moves (in a cycle, homing, or slowing down for a
-- hold) stops the spindle, the coolant and the steppers, in that order, and raises exactly one of
-- the two alarms that the position is lost: the homing alarm when homing, else the cycle's.
pub mc_reset_in_motion :
    (s : Sys)
    → s.exec.reset ≡ false
    → (in_cycle_or_homing s.state || is_enable_hold s.suspend) ≡ true
    → ((mc_reset s).calls
        ≡ ((s.calls ++ (spindle_stop ∷ [])) ++ (coolant_stop ∷ [])) ++ (st_go_idle ∷ []))
      × ((mc_reset s).alarms.homing_fail ≡ (is_homing s.state || s.alarms.homing_fail))
      × ((mc_reset s).alarms.abort_cycle ≡ (not (is_homing s.state) || s.alarms.abort_cycle))
unfolding mc_reset
mc_reset_in_motion s p q = ground arith

-- The first reset request met at rest stops the spindle and the coolant, leaves the steppers
-- enabled, and raises no alarm.
pub mc_reset_at_rest :
    (s : Sys)
    → s.exec.reset ≡ false
    → (in_cycle_or_homing s.state || is_enable_hold s.suspend) ≡ false
    → ((mc_reset s).calls ≡ (s.calls ++ (spindle_stop ∷ [])) ++ (coolant_stop ∷ []))
      × ((mc_reset s).alarms ≡ s.alarms)
unfolding mc_reset
mc_reset_at_rest s p q = ground arith
