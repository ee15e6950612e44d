-- ===== src/Commands.antt =====
-- common_src/system.c: the commands of lines that begin with `$`, and the startup lines. The line is
-- the array of characters; a read past its end gives zero. The safety door pin is not in the build.
pub mod Buffer
pub mod Numbered
pub mod Execute
pub mod Outcome
pub mod Refused
pub mod Locked
pub mod Busy
pub mod Line
use cpcbm.Base.{
  ℕ, zero, suc, ◌+◌, ◌-◌, Bool, true, false, not, ◌&&◌, ◌||◌, List, [], ◌∷◌, ◌++◌, Option, none,
  some, ◌==◌, if◌then◌else◌,
}
use cpcbm.Base.Real.{Real, Vec}
use cpcbm.System.{State, Sys, calling, report_feedback_message}
use cpcbm.MotionControl.{mc_reset}
use cpcbm.Flash.{Memory, Device}
use cpcbm.GCode.{Status, status_ok, idle_error, invalid_statement, Parser}
use cpcbm.GCode.Execute.{World, Run, Call}
use cpcbm.GCode.Line.{gc_execute_line}
use cpcbm.Settings.Global.{GlobalSettings, Machine}

-- N_STARTUP_LINE
abbrev pub n_startup_line : ℕ
n_startup_line = 2

-- What is sent to the host.
pub data Report : Type 0 where
  report_init_message report_grbl_help report_grbl_settings report_gcode_modes
        report_ngc_parameters :
      Report
  report_build_info : List ℕ → Report
  report_startup_line : ℕ → List ℕ → Report
  report_status_message : Status → Report
  print_string : List ℕ → Report

abbrev pub is_idle : State → Bool
is_idle State.idle = true
is_idle _ = false

abbrev pub is_alarm : State → Bool
is_alarm State.alarm = true
is_alarm _ = false

abbrev pub is_check_mode : State → Bool
is_check_mode State.check_mode = true
is_check_mode _ = false

abbrev pub is_cycle_or_hold : State → Bool
is_cycle_or_hold State.cycle = true
is_cycle_or_hold State.hold = true
is_cycle_or_hold _ = false

abbrev pub is_free : ℕ → Bool
is_free letter = letter == b'$' || (letter == b'G' || (letter == b'C' || letter == b'X'))

module _ (real : Real) where
  open real use {R}

  -- What is not code of these parts: the flash device, the bytes of a settings record and the default
  -- settings, the coordinate data as numbers, the target of a probe cycle, what a call of the g-code
  -- executor does to the shared state, the settings and the flash memory, and the homing cycle.
  pub record Environment : Type 0 where
    pub device : Device
    pub bytes_of : GlobalSettings real → List ℕ
    pub defaults : GlobalSettings real
    pub read_coord : Memory → ℕ → Option (Vec R)
    pub probed : Vec R → Vec R
    pub perform : Call real → Sys × Machine real → Sys × Machine real
    pub mc_homing_cycle : Sys → Sys

  -- The state of the parts that the commands use, with what they have sent, and the calls of the lines
  -- of g-code that they have run.
  pub record Controller : Type 0 where
    pub sys : Sys
    pub machine : Machine real
    pub parser : Parser real
    pub line : List ℕ
    pub reports : List Report
    pub gcode_calls : List (Call real)

  abbrev pub Answer : Type 0
  Answer = Status × Controller

  abbrev pub reported : Report → Controller → Controller
  reported r c = record c { reports = c.reports ++ (r ∷ []) }

  abbrev pub told : ℕ → Controller → Controller
  told n c = record c { sys = calling c.sys (report_feedback_message n) }

  abbrev pub set_state : State → Controller → Controller
  set_state state c = record c { sys = record c.sys { state = state } }

  abbrev pub set_memory : Memory → Controller → Controller
  set_memory memory c = record c { machine = record c.machine { memory = memory } }

  abbrev pub world : Environment → Controller → World real
  world e c = record {
    check_mode = is_check_mode c.sys.state;
    read_coord = e.read_coord c.machine.memory;
    probed = e.probed;
  }

  -- The calls of a line, one after another.
  unfoldable pub performed :
      Environment → List (Call real) → Sys × Machine real → Sys × Machine real
  performed e [] s = s
  performed e (x ∷ xs) s = performed e xs (e.perform x s)

  -- What a line of g-code leaves behind.
  abbrev pub after_run : Environment → Controller → Run real → Controller
  after_run e c run =
      let (sys, machine) = performed e run.calls (c.sys, c.machine) in
      record c {
        sys = sys;
        machine = machine;
        parser = run.st;
        gcode_calls = c.gcode_calls ++ run.calls;
      }

  abbrev pub ran : Environment → Controller → Option (Status × Run real) → Option Answer
  ran e c none = none
  ran e c (some (status, run)) = some (status, after_run e c run)

  -- A line of g-code.
  unfoldable pub run_gcode : Environment → List ℕ → Controller → Option Answer
  unfolding performed
  run_gcode e text c = ran e c (gc_execute_line real (world e c) c.parser text)

  -- $C
  abbrev pub toggle_check_mode : Controller → Answer
  toggle_check_mode c =
      if is_check_mode c.sys.state
      then (status_ok, told 5 (record c { sys = mc_reset c.sys }))
      else if not (is_idle c.sys.state)
      then (idle_error, c)
      else (status_ok, told 4 (set_state State.check_mode c))

  -- $X
  abbrev pub unlock : Controller → Answer
  unlock c =
      if is_alarm c.sys.state then (status_ok, set_state State.idle (told 3 c)) else (status_ok, c)

  -- $$
  abbrev pub print_settings : Controller → Answer
  print_settings c =
      if is_cycle_or_hold c.sys.state
      then (idle_error, c)
      else (status_ok, reported report_grbl_settings c)

  -- The commands that do not ask for IDLE or ALARM, without the check of the line's end.
  unfoldable pub run_free : ℕ → Controller → Answer
  unfolding mc_reset
  run_free letter c =
      if letter == b'$'
      then print_settings c
      else if letter == b'G'
      then (status_ok, reported report_gcode_modes c)
      else if letter == b'C'
      then toggle_check_mode c
      else unlock c
