-- ===== src/Tests/Realtime.antt =====
-- Rounds of the realtime loop in concrete states.
use cpcbm.Base.{[], ◌∷◌, ◌++◌, ◌≡◌, refl, true, false, if◌then◌else◌}
use cpcbm.System.{
  st_prep_buffer, st_wake_up, st_update_plan_block_parameters, State, Sys, fresh_sys, no_exec,
  no_alarms, no_suspend,
}
use cpcbm.Protocol.Realtime.{Machine, is_cycle, realtime_round}
use cpcbm.Protocol.Realtime.States.{realtime_round_holds}
use cpcbm.Protocol.Realtime.Resume.{round_on, feed_hold, cycle_stop, cycle_start, hold_resumes}
use cpcbm.Protocol.Realtime.Alarm.{realtime_round_alarm}

abbrev working : Machine
working = record { spindle_on = true; coolant_on = false; has_block = true }

abbrev cycling : Sys
cycling = record fresh_sys {
  state = State.cycle;
  exec = record no_exec { feed_hold = true; cycle_start = true };
}

abbrev resetting : Sys
resetting = record fresh_sys { exec = record no_exec { reset = true; feed_hold = true } }

abbrev moving : Sys
moving = record fresh_sys { state = State.cycle }

abbrev lost : Sys
lost = record fresh_sys {
  state = State.homing;
  exec = record no_exec { cycle_stop = true };
  alarms = record no_alarms { probe_fail = true };
}

realtime_round_holds_example :
    (is_cycle (realtime_round working cycling).0.state ≡ false)
    × ((realtime_round working cycling).1 ≡ false)
realtime_round_holds_example = realtime_round_holds working cycling (refl, refl) refl

hold_resumes_example :
    let holding = round_on working feed_hold moving in
    let stopped = round_on working cycle_stop holding in
    let resumed = round_on working cycle_start stopped in
    (holding.state ≡ State.hold)
    × (stopped.state ≡ State.hold)
    × (resumed.state ≡ (if true then State.cycle else State.idle))
    × (resumed.suspend ≡ no_suspend)
    × (resumed.exec ≡ no_exec)
    × (resumed.calls
        ≡ []
          ++ (st_update_plan_block_parameters
              ∷ st_prep_buffer
              ∷ st_prep_buffer
              ∷ (if true then st_prep_buffer ∷ st_wake_up ∷ st_prep_buffer ∷ [] else [])))
hold_resumes_example = hold_resumes working moving refl refl refl

realtime_round_alarm_example :
    ((realtime_round working lost).0.state ≡ (if true then State.idle else State.alarm))
    × ((realtime_round working lost).0.alarms ≡ no_alarms)
realtime_round_alarm_example = realtime_round_alarm working lost refl refl refl
