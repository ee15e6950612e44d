-- ===== src/Commands/Line.antt =====
-- common_src/protocol.c: `protocol_execute_line`, and what `protocol_main_loop` does before its loop.
use cpcbm.Base.{
  ◌≡◌, ◌⊎◌, refl, ap, inl, inr, Bool, true, false, ◌&&◌, Option, some, ◌==◌, if◌then◌else◌, arith,
}
use cpcbm.Base.Real.{Real}
use cpcbm.System.{State, Sys}
use cpcbm.GCode.{status_ok, alarm_lock}
use cpcbm.Commands.{
  Environment, Controller, Answer, reported, told, set_state, run_gcode, is_alarm,
  report_init_message, report_status_message,
}
use cpcbm.Commands.Outcome.{Outcome, answers}
use cpcbm.Commands.Buffer.{char_at, text_from}
use cpcbm.Commands.Execute.{report_run, system_execute_startup, system_execute_line}
use cpcbm.Commands.Locked.{Still, system_execute_line-Still}

module _ (real : Real) (e : Environment real) (protocol_execute_realtime : Sys → Sys) where
  abbrev pub at_checkpoint : Controller real → Controller real
  at_checkpoint c = record c { sys = protocol_execute_realtime c.sys }

  -- The line, after the checkpoint.
  unfoldable pub execute_checked : Controller real → Option (Controller real)
  unfolding system_execute_line run_gcode
  execute_checked c =
      if c.sys.abort
      then some c
      else if char_at c.line 0 == 0
      then some (reported real (report_status_message status_ok) c)
      else if char_at c.line 0 == b'$'
      then report_run real e (system_execute_line real e c)
      else if is_alarm c.sys.state
      then some (reported real (report_status_message alarm_lock) c)
      else report_run real e (run_gcode real e (text_from 0 c.line) c)

  unfoldable pub protocol_execute_line : Controller real → Option (Controller real)
  unfolding execute_checked
  protocol_execute_line c = execute_checked (at_checkpoint c)

  -- The start of `protocol_main_loop`; the safety door pin is not in the build.
  unfoldable pub start_main_loop : Controller real → Option (Controller real)
  unfolding system_execute_startup
  start_main_loop c =
      let welcomed = reported real report_init_message c in
      if is_alarm c.sys.state
      then some (told real 2 welcomed)
      else system_execute_startup real e (set_state real State.idle welcomed)

  -- No g-code has run, and the state is the same or the line was $X.
  pub data Locks (c : Controller real) : Option (Controller real) → Type 0 where
    locks :
        {t : Controller real}
        → t.parser ≡ c.parser
        → t.gcode_calls ≡ c.gcode_calls
        → (t.sys.state ≡ c.sys.state)
          ⊎ ((char_at c.line 0 == b'$' && char_at c.line 1 == b'X') ≡ true)
        → Locks c (some t)

  if-Locks :
      {c : Controller real} (b : Bool) {x y : Option (Controller real)}
      → (b ≡ true → Locks c x)
      → (b ≡ false → Locks c y)
      → Locks c (if b then x else y)
  if-Locks true p q = p refl
  if-Locks false p q = q refl

  report_run-Locks :
      {c : Controller real} {o : Option (Answer real)}
      → (char_at c.line 0 == b'$') ≡ true
      → Outcome real (Still real) c o
      → Locks c (report_run real e o)
  report_run-Locks {c} dollar (answers {a = (code, t)} (p, q, inl r)) = locks p q (inl r)
  report_run-Locks {c} dollar (answers {a = (code, t)} (p, q, inr r)) =
      locks p q (inr (rw dollar r))

  execute_checked-Locks :
      (c : Controller real)
      → c.sys.state ≡ State.alarm
      → (char_at c.line 0 == b'$' && char_at c.line 1 == b'H') ≡ false
      → Locks c (execute_checked c)
  unfolding execute_checked
  execute_checked-Locks c alarm other =
      if-Locks c.sys.abort (λ _. locks refl refl (inl refl))
        (λ _.
          if-Locks (char_at c.line 0 == 0) (λ _. locks refl refl (inl refl))
            (λ _.
              if-Locks (char_at c.line 0 == b'$')
                (λ dollar.
                  report_run-Locks dollar
                    (system_execute_line-Still real e c alarm (ground (arith, dollar, other))))
                (λ _.
                  if-Locks (is_alarm c.sys.state) (λ _. locks refl refl (inl refl))
                    (λ unlocked. absurd (cc (ap is_alarm alarm, unlocked))))))

  -- If the machine is in an alarm after the checkpoint, a line other than $H returns, runs no g-code
  -- and leaves the parser as it was, and only $X changes the state.
  pub protocol_execute_line-Locks :
      (c : Controller real)
      → (protocol_execute_realtime c.sys).state ≡ State.alarm
      → (char_at c.line 0 == b'$' && char_at c.line 1 == b'H') ≡ false
      → Locks (at_checkpoint c) (protocol_execute_line c)
  unfolding protocol_execute_line
  protocol_execute_line-Locks c alarm other = execute_checked-Locks (at_checkpoint c) alarm other
