-- ===== src/Protocol/Realtime.antt =====
-- common_src/protocol.c: one round of the loop of `protocol_execute_realtime`, behind the wait that a
-- critical alarm adds. The flags are read once, at the start of the round: what an interrupt raises
-- later is met by the next round. `mc_reset` and the receive interrupt, which raise them, are in
-- `MotionControl` and `Serial`.
pub mod States
pub mod Resume
pub mod Alarm
use cpcbm.Base.{ℕ, Bool, true, false, not, ◌&&◌, ◌||◌, if◌then◌else◌}
use cpcbm.MotionControl.{mc_reset}
use cpcbm.System.{
  State, Exec, Alarms, Suspend, Call, Sys, no_exec, no_alarms, no_suspend, calling, spindle_stop,
  coolant_stop, spindle_set_state, coolant_set_state, st_prep_buffer, st_wake_up,
  st_update_plan_block_parameters, report_realtime_status, report_alarm_message,
  report_feedback_message, delay_ms,
}

-- What a round asks of the other parts: the parser's spindle and coolant modes, and whether the
-- planner has a block.
pub record Machine : Type 0 where
  pub spindle_on : Bool
  pub coolant_on : Bool
  pub has_block : Bool

abbrev pub any_alarm : Alarms → Bool
any_alarm a =
    a.critical_event || a.hard_limit || a.soft_limit || a.abort_cycle || a.probe_fail
    || a.homing_fail

-- The chain of alarm messages, by the numbers of report.h.
abbrev pub report_alarm : Alarms → Sys → Sys
report_alarm a s =
    if a.hard_limit
    then calling s (report_alarm_message 1)
    else if a.soft_limit
    then calling s (report_alarm_message 2)
    else if a.abort_cycle
    then calling s (report_alarm_message 3)
    else if a.probe_fail
    then calling s (report_alarm_message 4)
    else if a.homing_fail
    then calling s (report_alarm_message 5)
    else s

-- The alarms. A critical one is reported, and blocks until a reset is requested after that, which
-- only `mc_reset` does.
unfoldable pub run_alarms : Sys → Sys
unfolding mc_reset
run_alarms s =
    if any_alarm s.alarms
    then (let reported = report_alarm s.alarms (record s { state = State.alarm }) in
        let told = calling reported (report_feedback_message 1) in
        let waited =
          if s.alarms.critical_event
          then mc_reset (record told { exec = record (told.exec) { reset = false } })
          else reported in
        record waited { alarms = no_alarms })
    else s

unfoldable pub run_status_report : Exec → Sys → Sys
run_status_report rt s =
    if rt.status_report
    then record (calling s report_realtime_status) {
      exec = record (s.exec) { status_report = false };
    }
    else s

-- The states in which a hold is allowed.
abbrev pub may_hold : State → Bool
may_hold State.alarm = false
may_hold State.check_mode = false
may_hold _ = true

abbrev pub is_idle : State → Bool
is_idle State.idle = true
is_idle _ = false

abbrev pub is_cycle : State → Bool
is_cycle State.cycle = true
is_cycle _ = false

abbrev pub is_safety_door : State → Bool
is_safety_door State.safety_door = true
is_safety_door _ = false

abbrev pub enter_suspend : Sys → Sys
enter_suspend s = elim (s.state) [
  | State.cycle ↦ record (calling s st_update_plan_block_parameters) {
    suspend = record no_suspend { enable_hold = true };
  }
  | State.idle ↦ record s { suspend = record no_suspend { enable_ready = true } }
  | _ ↦ s
]

abbrev pub hold_motion_cancel : Exec → Sys → Sys
hold_motion_cancel rt s =
    if rt.motion_cancel
    then record s {
      state = if is_cycle s.state then State.motion_cancel else s.state;
      suspend = record (s.suspend) { motion_cancel = true };
    }
    else s

abbrev pub hold_feed : Exec → Sys → Sys
hold_feed rt s =
    if rt.feed_hold && not (is_safety_door s.state) then record s { state = State.hold } else s

-- The door's hold may add a cycle stop to the flags of this round.
abbrev pub hold_door : Exec → Sys → Exec × Sys
hold_door rt s =
    if rt.safety_door
    then (
      (if s.suspend.enable_ready then record rt { cycle_stop = true } else rt),
      record (calling s (report_feedback_message 6)) {
        suspend = record (s.suspend) { energize = true };
        state = State.safety_door;
      },
    )
    else (rt, s)

abbrev pub is_hold_request : Exec → Bool
is_hold_request rt = rt.motion_cancel || rt.feed_hold || rt.safety_door

abbrev pub clear_holds : Sys → Sys
clear_holds s = record s {
  exec = record (s.exec) { motion_cancel = false; feed_hold = false; safety_door = false };
}

unfoldable pub run_holds : Exec → Sys → Exec × Sys
run_holds rt s =
    if is_hold_request rt
    then (let held =
          if may_hold s.state
          then hold_door rt (hold_feed rt (hold_motion_cancel rt (enter_suspend s)))
          else (rt, s) in
        (held.0, clear_holds held.1))
    else (rt, s)

abbrev pub may_start : State → Suspend → Bool
may_start State.idle p = true
may_start State.hold p = p.enable_ready
may_start State.motion_cancel p = p.enable_ready
may_start _ p = false

-- The restart of what an open door has switched off.
abbrev pub restart_spindle : Machine → Sys → Sys
restart_spindle m s =
    if m.spindle_on then calling (calling s spindle_set_state) (delay_ms 4000) else s

abbrev pub restart_coolant : Machine → Sys → Sys
restart_coolant m s =
    if m.coolant_on then calling (calling s coolant_set_state) (delay_ms 1000) else s

abbrev pub energize : Machine → Sys → Sys
energize m s = if s.suspend.energize then restart_coolant m (restart_spindle m s) else s

abbrev pub start_cycle : Machine → Sys → Sys
start_cycle m s =
    if m.has_block && not s.suspend.motion_cancel
    then calling (calling (record s { state = State.cycle }) st_prep_buffer) st_wake_up
    else record s { state = State.idle }

unfoldable pub run_cycle_start : Machine → Exec → Sys → Sys
run_cycle_start m rt s =
    if rt.cycle_start
    then (let started =
          if not (is_hold_request rt) && may_start s.state s.suspend
          then record (start_cycle m (energize m s)) { suspend = no_suspend }
          else s in
        record started { exec = record (started.exec) { cycle_start = false } })
    else s

abbrev pub is_held : State → Bool
is_held State.hold = true
is_held State.safety_door = true
is_held _ = false

unfoldable pub run_cycle_stop : Exec → Sys → Sys
run_cycle_stop rt s =
    if rt.cycle_stop
    then (let stopped =
          if is_held s.state && not s.soft_limit
          then (let off =
                if s.suspend.energize then calling (calling s spindle_stop) coolant_stop else s in
              record off { suspend = record (off.suspend) { enable_ready = true } })
          else record s { suspend = no_suspend; state = State.idle } in
        record stopped { exec = record (stopped.exec) { cycle_stop = false } })
    else s

-- The part of the round behind `if (rt_exec)`, without a reset.
unfoldable pub run_requests : Machine → Exec → Sys → Sys
run_requests m rt s =
    let held = run_holds rt (run_status_report rt s) in
    run_cycle_stop held.0 (run_cycle_start m held.0 held.1)

-- common_src/system.c: the build does not enable the pin of the safety door.
abbrev pub system_check_safety_door_ajar : Bool
system_check_safety_door_ajar = false

-- The reload of the segment buffer, and the door that closes.
abbrev pub is_moving : State → Bool
is_moving State.cycle = true
is_moving State.hold = true
is_moving State.motion_cancel = true
is_moving State.safety_door = true
is_moving State.homing = true
is_moving _ = false

unfoldable pub run_reload : Machine → Sys → Sys
run_reload m s =
    let reloaded = if is_moving s.state then calling s st_prep_buffer else s in
    if is_safety_door reloaded.state
      && reloaded.suspend.enable_ready
      && not system_check_safety_door_ajar
    then record reloaded { state = State.hold }
    else reloaded

-- The round: the state behind it, and whether the loop returns at once, for a reset.
unfoldable pub realtime_round : Machine → Sys → Sys × Bool
realtime_round m s =
    let alarmed = run_alarms s in
    if alarmed.exec.reset
    then (record alarmed { abort = true }, true)
    else (run_reload m (run_requests m alarmed.exec alarmed), false)
