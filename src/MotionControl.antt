-- ===== src/MotionControl.antt =====
-- common_src/motion_control.c: `mc_reset`, which the receive interrupt, the reset pin and the limit
-- switches call.
pub mod Reset
pub mod Arc
pub mod Lines
use cpcbm.Base.{Bool, true, false, not, ◌&&◌, ◌||◌, if◌then◌else◌}
use cpcbm.System.{State, Suspend, Sys, calling, spindle_stop, coolant_stop, st_go_idle}

abbrev pub in_cycle_or_homing : State → Bool
in_cycle_or_homing State.cycle = true
in_cycle_or_homing State.homing = true
in_cycle_or_homing _ = false

abbrev pub is_homing : State → Bool
is_homing State.homing = true
is_homing _ = false

-- `sys.suspend == SUSPEND_ENABLE_HOLD`: that bit and no other.
abbrev pub is_enable_hold : Suspend → Bool
is_enable_hold p = p.enable_hold && not p.enable_ready && not p.energize && not p.motion_cancel

abbrev pub raise_lost_position : Sys → Sys
raise_lost_position s =
    if is_homing s.state
    then record s { alarms = record (s.alarms) { homing_fail = true } }
    else record s { alarms = record (s.alarms) { abort_cycle = true } }

unfoldable pub mc_reset : Sys → Sys
mc_reset s =
    if not s.exec.reset
    then (let flagged = record s { exec = record (s.exec) { reset = true } } in
        let stopped = calling (calling flagged spindle_stop) coolant_stop in
        if in_cycle_or_homing stopped.state || is_enable_hold stopped.suspend
        then calling (raise_lost_position stopped) st_go_idle
        else stopped)
    else s
