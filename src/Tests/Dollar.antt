-- ===== src/Tests/Dollar.antt =====
-- Commands while the machine is idle, at work and in an alarm.
use cpcbm.Base.{ℕ, ◌≡◌, refl, List, [], ◌∷◌, some}
use cpcbm.System.{State, fresh_sys}
use cpcbm.GCode.{Parser, zero_vec, idle_error}
use cpcbm.Commands.{Environment, Controller}
use cpcbm.Commands.Outcome.{Outcome}
use cpcbm.Commands.Execute.{system_execute_line}
use cpcbm.Commands.Line.{Locks, protocol_execute_line, protocol_execute_line-Locks}
use cpcbm.Commands.Busy.{Untouched, system_execute_line-Untouched}
use cpcbm.Tests.Natural.{natural}
use cpcbm.Tests.Parser.{modes}
use cpcbm.Tests.Storage.{flash, settings, machine, bytes_of}

abbrev parser : Parser natural
parser = record {
  modal = modes;
  spindle_speed = 0;
  feed_rate = 0;
  tool = 0;
  line_number = 0;
  position = zero_vec natural;
  coord_system = zero_vec natural;
  coord_offset = zero_vec natural;
  tool_length_offset = 0;
}

abbrev environment : Environment natural
environment = record {
  device = flash;
  bytes_of = bytes_of;
  defaults = settings;
  read_coord = λ _ _. some (zero_vec natural);
  probed = λ v. v;
  perform = λ _ s. s;
  mc_homing_cycle = λ s. s;
}

abbrev given : State → List ℕ → Controller natural
given state line = record {
  sys = record fresh_sys { state = state };
  machine = machine;
  parser = parser;
  line = line;
  reports = [];
  gcode_calls = [];
}

-- `$N0=G1X1`, whose line has no feed rate
abbrev store_line : List ℕ
store_line = b'$' ∷ b'N' ∷ b'0' ∷ b'=' ∷ b'G' ∷ b'1' ∷ b'X' ∷ b'1' ∷ 0 ∷ []

busy_store :
    system_execute_line natural environment (given State.cycle store_line)
    ≡ some (idle_error, given State.cycle store_line)
unfolding system_execute_line
busy_store = refl

protocol_execute_line-Locks_example :
    Locks natural environment
      (λ s. s)
      (given State.alarm store_line)
      (protocol_execute_line natural environment (λ s. s) (given State.alarm store_line))
protocol_execute_line-Locks_example =
    protocol_execute_line-Locks natural environment (λ s. s) (given State.alarm store_line) refl
      refl

system_execute_line-Untouched_example :
    Outcome natural
      (Untouched natural)
      (given State.hold store_line)
      (system_execute_line natural environment (given State.hold store_line))
system_execute_line-Untouched_example =
    system_execute_line-Untouched natural environment (given State.hold store_line) refl refl
