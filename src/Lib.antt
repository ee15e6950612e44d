-- ===== src/Lib.antt =====
-- A model of the firmware of a printed circuit board milling machine: Grbl, ported to the STM32
-- Nucleo board, in firmware/grbl_port. Paths without a folder are those of
-- firmware/grbl_port/common_src.
--
-- The host sends lines over a serial port. The receive interrupt takes single-character commands
-- out of the stream and puts the rest in a ring (serial.c); the main loop takes the characters out
-- of the ring, drops comments and blanks, and collects a line (protocol.c); a line of g-code is
-- parsed, checked and executed (gcode.c, with the number reader of nuts_bolts.c), which ends in
-- calls of motion control, spindle, coolant and settings; a line that begins with `$` is a command of
-- system.c, which reads and writes the settings and the startup lines. Answers go out through the
-- printers (print.c) and the transmit ring. A reset request (motion_control.c) may come at any time
-- from an interrupt. The interrupts raise flags (system.h), which the main program serves in
-- `protocol_execute_realtime`. A line of motion becomes a block of the planner (planner.c), which
-- the stepper driver cuts into segments and traces in its interrupt (stepper.c).
--
-- The parts and their files:
--   Base            lists as C arrays, Boolean tests, flag words, signed numbers
--   Base/Real       floating point arithmetic, a parameter: `float` and <math.h> are not code of
--                   the repository, and nothing is assumed of them but where a theorem says so
--   Ring            rings with one free cell: indices (Count) and what a ring holds (Contents)
--   System          system.h: `sys` and the flags, one Boolean for a bit
--   MotionControl   motion_control.c: `mc_reset`, with theorems in MotionControl/Reset; `mc_arc` is in
--                   Arc, and Lines relates it to a list of lines
--   Commands        system.c: the state of the parts that the `$` commands use, and the commands that
--                   do not ask for an idle machine; Buffer has the line as an array, Numbered the
--                   commands with a number, Execute the others, the startup lines and
--                   `system_execute_line`; its theorems are in Refused, Locked and Busy;
--                   Line has `protocol_execute_line` of protocol.c
--   Limits          limits.c: `limits_soft_check`; its theorem is in Limits/Soft
--   Serial          serial.c: both rings, `serial_write` and `serial_read`, and the interrupts;
--                   the invariant is in Serial/Inv, the rings against queues in Serial/Refine,
--                   `serial_write` under interrupts in Serial/Stream
--   Print           print.c: the printers of integers; Print/Digits reads digits back
--   Protocol        protocol.c: the loop over the serial data in `protocol_main_loop`;
--                   Protocol/Clean describes a line without the buffer, Protocol/Line relates both
--   Protocol/Realtime  one round of the loop of `protocol_execute_realtime`; theorems on resets,
--                   holds in States, on resuming in Resume, on alarms in Alarm
--   Planner         planner.c: the ring of blocks; Planner/Queue relates it to a queue of blocks
--   Planner/Recalculate  `planner_recalculate`, with what it asks of stepper.c; Profile describes
--                   speeds without the ring, and Speeds the ring as such a profile; the theorems
--                   on the two passes are in Pushed, Reverse and Forward, and Reinitialize has the
--                   plan after a feed hold
--   Planner/Line    `plan_buffer_line` and `plan_sync_position`; the block it computes is followed to
--                   the motors in Stepper/Planned
--   Probe           probe.c: the pin, and the monitor that the step interrupt runs
--   Stepper         stepper.c: the step interrupt, `st_wake_up` and `st_go_idle`; Bresenham has the
--                   line of an axis, Trace an event, Run the sequences of events and fillings of the
--                   buffers, Executing the state between two of them, Block a whole block
--   Stepper/Prepare, Ramps, Fill  `st_prep_buffer`: a block's data and a segment's, the speed profile
--                   and its loop, and the whole. Recent and Kept have the two rings, Filled and Rounds the parts of a round on
--                   them, Returns the whole loop, and Feeds joins it to the interrupt of Run
--   Stepper/Reset   `st_reset`, and the interrupt that ends a pulse; Rings and Running have the rings
--                   in the step interrupt, Reached all that may happen after a reset
--   Flash           stm32/f4/nucleo-f401re/flash.c: bytes, records with a checksum, and the
--                   exchange of the two sectors, over a `Device` that programs and erases; records
--                   are in Record and Erased, copies in Copy, the restore in Restore and Recover
--   Settings/Storage  settings.c: the records in flash; Exchange and Coord have theorems
--   Settings/Global   settings.c: `settings_store_global_setting`; Stored and Outcome have
--                   theorems
--   NutsBolts       nuts_bolts.c: `read_float`; NutsBolts/Scan has its digit loop
--   GCode           gcode.h: the parser's types; Group and Word are the bits of its flag words
--   GCode/Words     gcode.c, `gc_execute_line`, step 2: the commands of G and M words
--   GCode/Parse     step 2: the value words and the loop over the words
--   GCode/Check     step 3: the checks up to the coordinate system; Target has the non-modal
--                   commands and the target position, Arc the motion modes, Whole the composition
--   GCode/Execute   step 4: the state's update and the calls, recorded in order
--   GCode/Line      the three steps together; theorems on refused lines in Reject, on the words of a
--                   line in Groups, on the position in Position
--   Tests           runs on concrete inputs
--
-- The build is the board's: NUCLEO, USE_RX_DMA, COREXY, variable spindle, three axes, without line
-- numbers, M7, software flow control and safety door pin. RX_BUFFER_SIZE is 1024, TX_BUFFER_SIZE 64,
-- LINE_BUFFER_SIZE 80 and BLOCK_BUFFER_SIZE 18. Bytes and 32-bit words wrap where the source's
-- arithmetic can reach their bounds; the code's conversions of `float` to integers belong to the
-- parameter.
--
-- Loops: the loop over the words of a line runs on fuel, one more than the characters of the line,
-- each round taking at least the letter of a word. The loop that prints a 32-bit number has the ten
-- cells of its buffer as its bound. The wait in `serial_write` runs over a list of the events that
-- happen between two of its tests, and all such lists are considered. Other loops recurse on the
-- text or on a count of the source.
--
-- The two passes of `planner_recalculate` run on fuel, BLOCK_BUFFER_SIZE rounds each, which is
-- enough: a pass visits a block of the ring once. Of the floating point numbers, the theorem on the
-- speeds assumes an order and an addition that keeps it (`Order`), which numbers that are no NaN
-- have. The bytes of a settings record, as the compiler lays it out, are a parameter.
--
-- The loop of `st_prep_buffer` over the ramps of a speed profile runs on fuel that the caller gives,
-- since its end depends on the rounding of the numbers; its loop over the segments makes at most
-- SEGMENT_BUFFER_SIZE rounds. It is run with no interrupt in the middle, so that its wait for the
-- interrupt at the end of a block only passes time. In the
-- source the interrupt drains the ring during that wait.
--
-- The wait of the soft limit check for the end of a cycle runs on fuel, one round more than the
-- rounds that do not end it; a realtime round is a parameter there.
--
-- The checkpoint of `protocol_execute_line` is a parameter too. The positions in steps are unbounded
-- integers.
--
-- Not modelled: the repetition of the realtime round while the system is suspended, the waits of the
-- main program for the planner's buffer, dwells and probe cycles, the homing cycle and the limit
-- interrupt, spindle and coolant; the calls that the models make of them are recorded, and what they return is
-- a parameter (`World` for `gc_execute_line`, `Machine` for the realtime round, `Environment` for the
-- commands, which also says what such a call does to `sys`, the settings and the flash memory).
-- Register access, pins, delays and reports have no state that these parts read.
pub mod Base
pub mod Ring
pub mod System
pub mod MotionControl
pub mod Limits
pub mod Serial
pub mod Print
pub mod Protocol
pub mod NutsBolts
pub mod Probe
pub mod Stepper
pub mod Planner
pub mod Flash
pub mod Settings
pub mod GCode
pub mod Commands
mod Tests
