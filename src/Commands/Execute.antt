-- ===== src/Commands/Execute.antt =====
-- `system_execute_startup` and `system_execute_line`.
use cpcbm.Base.{
  ℕ, zero, suc, ◌+◌, Bool, true, false, not, ◌||◌, Option, none, some, ◌==◌, if◌then◌else◌,
}
use cpcbm.Base.Bits.{Bits}
use cpcbm.Base.Real.{Real}
use cpcbm.System.{State, calling, st_go_idle}
use cpcbm.MotionControl.{mc_reset}
use cpcbm.GCode.{status_ok, invalid_statement, idle_error, setting_disabled, setting_read_fail}
use cpcbm.Settings.Storage.{
  settings_read_startup_line, settings_read_build_info, settings_store_build_info, settings_restore,
  restore_defaults, restore_parameters,
}
use cpcbm.Settings.Global.{homing_enable_flag}
use cpcbm.Commands.{
  Environment, Controller, Answer, reported, told, set_memory, run_gcode, run_free, is_free,
  is_idle, is_alarm, n_startup_line, report_grbl_help, report_ngc_parameters, report_build_info,
  report_startup_line, report_status_message, print_string,
}
use cpcbm.Commands.Buffer.{char_at, text_from, shift_down}
use cpcbm.Commands.Numbered.{store_at}

module _ (real : Real) (e : Environment real) where
  -- The startup line `n`, in the array of the line; and whether it was good.
  abbrev pub read_startup : ℕ → Controller real → Bool × Controller real
  read_startup n c =
      let ((line, good), memory) = settings_read_startup_line e.device c.machine.memory n in
      (good, set_memory real memory (record c { line = line }))

  abbrev pub report_run : Option (Answer real) → Option (Controller real)
  report_run none = none
  report_run (some (status, c)) = some (reported real (report_status_message status) c)

  abbrev pub run_startup : Bool × Controller real → Option (Controller real)
  run_startup (good, c) =
      if not good
      then some (reported real (report_status_message setting_read_fail) c)
      else if char_at c.line 0 == 0
      then some c
      else report_run (
          run_gcode real e (text_from 0 c.line)
            (reported real (print_string (text_from 0 c.line)) c))

  -- The loop of `system_execute_startup`, for `count` lines from line `n` on.
  unfoldable pub startup_from : ℕ → ℕ → Controller real → Option (Controller real)
  unfolding run_gcode settings_read_startup_line
  startup_from zero n c = some c
  startup_from (suc count) n c = elim (run_startup (read_startup n c)) [
    | none ↦ none
    | some t ↦ startup_from count (n + 1) t
  ]

  unfoldable pub system_execute_startup : Controller real → Option (Controller real)
  unfolding startup_from
  system_execute_startup c = startup_from n_startup_line 0 c

  abbrev pub answered : Option (Controller real) → Option (Answer real)
  answered none = none
  answered (some c) = some (status_ok, c)

  -- After a homing cycle that was not aborted.
  abbrev pub settle : Controller real → Controller real
  settle c = record c { sys = calling (record c.sys { state = State.idle }) st_go_idle }

  -- $H
  unfoldable pub home : Controller real → Option (Answer real)
  unfolding system_execute_startup
  home c =
      let homed = record c { sys = e.mc_homing_cycle (record c.sys { state = State.homing }) } in
      if not (c.machine.settings.flags homing_enable_flag)
      then some (setting_disabled, c)
      else if homed.sys.abort
      then some (status_ok, homed)
      else answered (system_execute_startup (settle homed))

  -- $I
  unfoldable pub build_info : Controller real → Answer real
  unfolding settings_read_build_info settings_store_build_info shift_down
  build_info c =
      if char_at c.line 2 == 0
      then (let ((line, good), memory) = settings_read_build_info e.device c.machine.memory in
          (
            status_ok,
            reported real (report_build_info (text_from 0 line))
                (set_memory real memory (record c { line = line })),
          ))
      else if not (char_at c.line 2 == b'=')
      then (invalid_statement, c)
      else (let line = shift_down 3 c.line in
          (
            status_ok,
            set_memory real (settings_store_build_info e.device c.machine.memory line)
                (record c { line = line }),
          ))

  -- SETTINGS_RESTORE_*, by the character of the command
  abbrev pub restore_flag_of : ℕ → Option Bits
  restore_flag_of letter =
      if letter == b'$'
      then some (λ i. i == restore_defaults)
      else if letter == b'#'
      then some (λ i. i == restore_parameters)
      else if letter == b'*'
      then some (λ _. true)
      else none

  abbrev pub restore_by : Option Bits → Controller real → Answer real
  restore_by none c = (invalid_statement, c)
  restore_by (some flag) c =
      let machine = record c.machine {
        settings = if flag restore_defaults then e.defaults else c.machine.settings;
        memory = settings_restore e.device flag (e.bytes_of e.defaults) c.machine.memory;
      } in
      let restored = told real 8 (record c { machine = machine }) in
      (status_ok, record restored { sys = mc_reset restored.sys })

  -- $RST=
  unfoldable pub restore : Controller real → Answer real
  unfolding settings_restore mc_reset
  restore c =
      if not (char_at c.line 2 == b'S')
        || (not (char_at c.line 3 == b'T')
            || (not (char_at c.line 4 == b'=') || not (char_at c.line 6 == 0)))
      then (invalid_statement, c)
      else restore_by (restore_flag_of (char_at c.line 5)) c

  -- $N: the loop that prints the startup lines.
  abbrev pub print_startup : ℕ → Bool × Controller real → Controller real
  print_startup n (good, c) =
      if not good
      then reported real (report_status_message setting_read_fail) c
      else reported real (report_startup_line n (text_from 0 c.line)) c

  unfoldable pub print_startup_from : ℕ → ℕ → Controller real → Controller real
  unfolding settings_read_startup_line
  print_startup_from zero n c = c
  print_startup_from (suc count) n c =
      print_startup_from count (n + 1) (print_startup n (read_startup n c))

  -- $N and $Nx=line
  unfoldable pub startup_lines : Controller real → Option (Answer real)
  unfolding print_startup_from store_at
  startup_lines c =
      if char_at c.line 2 == 0
      then some (status_ok, print_startup_from n_startup_line 0 c)
      else if not (is_idle c.sys.state)
      then some (idle_error, c)
      else store_at real e true 2 c

  -- The commands that ask for IDLE or ALARM.
  unfoldable pub run_idle : ℕ → Controller real → Option (Answer real)
  unfolding home build_info restore startup_lines store_at
  run_idle letter c =
      if letter == b'#'
      then (if not (char_at c.line 2 == 0)
          then some (invalid_statement, c)
          else some (status_ok, reported real report_ngc_parameters c))
      else if letter == b'H'
      then home c
      else if letter == b'I'
      then some (build_info c)
      else if letter == b'R'
      then some (restore c)
      else if letter == b'N'
      then startup_lines c
      else store_at real e false 1 c

  -- `none` would be a line of g-code whose loop over the words does not end.
  unfoldable pub system_execute_line : Controller real → Option (Answer real)
  unfolding run_free run_idle
  system_execute_line c =
      let letter = char_at c.line 1 in
      if letter == 0
      then some (status_ok, reported real report_grbl_help c)
      else if is_free letter
      then (if not (char_at c.line 2 == 0)
          then some (invalid_statement, c)
          else some (run_free real letter c))
      else if not (is_idle c.sys.state || is_alarm c.sys.state)
      then some (idle_error, c)
      else run_idle letter c
