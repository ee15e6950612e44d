-- ===== src/System.antt =====
-- common_src/system.h: the state that the main program and the interrupts share. The flag bytes
-- `sys_rt_exec_state`, `sys_rt_exec_alarm` and `sys.suspend` are records with a Boolean for each
-- bit that the header names; `sys.state`, which the code only ever sets to one of its values, is a
-- data type. What the code asks of the other parts (a report, a pin, the stepper) is recorded in
-- `calls`, latest last.
use cpcbm.Base.{ℕ, Bool, false, List, [], ◌∷◌, ◌++◌}

-- STATE_*
pub data State : Type 0 where
  idle alarm check_mode homing cycle hold safety_door motion_cancel : State

-- EXEC_* of `sys_rt_exec_state`
pub record Exec : Type 0 where
  pub status_report : Bool
  pub cycle_start : Bool
  pub cycle_stop : Bool
  pub feed_hold : Bool
  pub reset : Bool
  pub safety_door : Bool
  pub motion_cancel : Bool

-- EXEC_* of `sys_rt_exec_alarm`
pub record Alarms : Type 0 where
  pub critical_event : Bool
  pub hard_limit : Bool
  pub soft_limit : Bool
  pub abort_cycle : Bool
  pub probe_fail : Bool
  pub homing_fail : Bool

-- SUSPEND_*
pub record Suspend : Type 0 where
  pub enable_hold : Bool
  pub enable_ready : Bool
  pub energize : Bool
  pub motion_cancel : Bool

-- Calls into the other parts, by the source's names.
pub data Call : Type 0 where
  spindle_stop coolant_stop spindle_set_state coolant_set_state : Call
  st_go_idle st_prep_buffer st_wake_up st_update_plan_block_parameters : Call
  report_realtime_status : Call
  report_alarm_message : ℕ → Call
  report_feedback_message : ℕ → Call
  report_status_message : ℕ → Call
  delay_ms : ℕ → Call

pub record Sys : Type 0 where
  pub abort : Bool
  pub state : State
  pub suspend : Suspend
  pub soft_limit : Bool
  pub exec : Exec
  pub alarms : Alarms
  pub calls : List Call

abbrev pub no_exec : Exec
no_exec = record {
  status_report = false;
  cycle_start = false;
  cycle_stop = false;
  feed_hold = false;
  reset = false;
  safety_door = false;
  motion_cancel = false;
}

abbrev pub no_alarms : Alarms
no_alarms = record {
  critical_event = false;
  hard_limit = false;
  soft_limit = false;
  abort_cycle = false;
  probe_fail = false;
  homing_fail = false;
}

-- SUSPEND_DISABLE
abbrev pub no_suspend : Suspend
no_suspend = record {
  enable_hold = false;
  enable_ready = false;
  energize = false;
  motion_cancel = false;
}

-- The `sys` that main() clears, and the flags that it clears before the main loop.
abbrev pub fresh_sys : Sys
fresh_sys = record {
  abort = false;
  state = State.idle;
  suspend = no_suspend;
  soft_limit = false;
  exec = no_exec;
  alarms = no_alarms;
  calls = [];
}

abbrev pub calling : Sys → Call → Sys
calling s c = record s { calls = s.calls ++ (c ∷ []) }
