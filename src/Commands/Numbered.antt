-- ===== src/Commands/Numbered.antt =====
-- The `$` commands with a number: a setting, and a startup line.
use cpcbm.Base.{ℕ, ◌+◌, ◌-◌, Bool, not, ◌||◌, List, Option, none, some, ◌==◌, if◌then◌else◌, length}
use cpcbm.Base.Real.{Real}
use cpcbm.NutsBolts.{read_float}
use cpcbm.GCode.{is_ok, status_ok, bad_number_format, invalid_statement}
use cpcbm.Settings.Storage.{settings_store_startup_line}
use cpcbm.Settings.Global.{settings_store_global_setting}
use cpcbm.Commands.{Environment, Controller, Answer, set_memory, run_gcode}
use cpcbm.Commands.Buffer.{char_at, text_from, shift_down}

module _ (real : Real) (e : Environment real) where
  open real use {R, decimal, lt, trunc_u8}

  -- A number at `line[i]`, and the index of the character behind it.
  unfoldable pub number_at : ℕ → List ℕ → Option (R × ℕ)
  unfolding read_float
  number_at i line = elim (read_float real (text_from i line)) [
    | none ↦ none
    | some (value, rest) ↦ some (value, i + (length (text_from i line) - length rest))
  ]

  -- The line is stored only if the parser has accepted and executed it.
  abbrev pub store_accepted : ℕ → Option (Answer real) → Option (Answer real)
  store_accepted n none = none
  store_accepted n (some (status, c)) =
      if not (is_ok status)
      then some (status, c)
      else some (
        status_ok,
        set_memory real (settings_store_startup_line e.device c.machine.memory n c.line) c,
      )

  -- $Nx=line, from the line on
  unfoldable pub store_startup : R → ℕ → Controller real → Option (Answer real)
  unfolding run_gcode shift_down
  store_startup parameter from c =
      let moved = record c { line = shift_down from c.line } in
      store_accepted (trunc_u8 parameter) (run_gcode real e (text_from 0 moved.line) moved)

  abbrev pub store_value : R → Controller real → Option (R × ℕ) → Answer real
  store_value parameter c none = (bad_number_format, c)
  store_value parameter c (some (value, end)) =
      if not (char_at c.line end == 0) || lt (decimal 255 0) parameter
      then (invalid_statement, c)
      else (let (status, machine) =
            settings_store_global_setting real e.device e.bytes_of (trunc_u8 parameter) value
              c.machine in
          (status, record c { machine = machine }))

  -- $x=value, from the value on
  unfoldable pub store_setting_at : R → ℕ → Controller real → Answer real
  unfolding number_at settings_store_global_setting
  store_setting_at parameter from c = store_value parameter c (number_at from c.line)

  abbrev pub store_number : Bool → Controller real → Option (R × ℕ) → Option (Answer real)
  store_number is_startup c none = some (bad_number_format, c)
  store_number is_startup c (some (parameter, end)) =
      if not (char_at c.line end == b'=')
      then some (invalid_statement, c)
      else if is_startup
      then store_startup parameter (end + 1) c
      else some (store_setting_at parameter (end + 1) c)

  -- Both kinds, from the number on.
  unfoldable pub store_at : Bool → ℕ → Controller real → Option (Answer real)
  unfolding number_at store_startup store_setting_at
  store_at is_startup i c = store_number is_startup c (number_at i c.line)
