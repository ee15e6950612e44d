-- ===== src/Commands/Busy.antt =====
-- What the commands leave alone while the machine is neither idle nor in an alarm.
use cpcbm.Base.{◌≡◌, ◌⊎◌, refl, ap, inl, inr, true, false, not, some, ◌==◌}
use cpcbm.Base.Real.{Real}
use cpcbm.GCode.{Status}
use cpcbm.System.{calling, report_feedback_message}
use cpcbm.MotionControl.{mc_reset}
use cpcbm.Commands.{
  Environment, Controller, Answer, run_free, is_free, is_idle, is_alarm, is_check_mode,
  is_cycle_or_hold,
}
use cpcbm.Commands.Outcome.{Outcome, answers, if-Outcome, some_if-Outcome, some_test-Outcome}
use cpcbm.Commands.Buffer.{char_at}
use cpcbm.Commands.Execute.{system_execute_line}

module _ (real : Real) where
  -- The settings, the memory, the parser and the line are the same and no g-code has run; and the
  -- shared state is the same too, unless the command is `$C` in check mode, which resets.
  abbrev pub Untouched : Controller real → Answer real → Type 0
  Untouched c (_, t) =
      (t.machine ≡ c.machine)
      × (t.parser ≡ c.parser)
      × (t.gcode_calls ≡ c.gcode_calls)
      × (t.line ≡ c.line)
      × ((t.sys ≡ c.sys)
          ⊎ (((char_at c.line 1 == b'C') ≡ true)
              × (is_check_mode c.sys.state ≡ true)
              × (t.sys ≡ calling (mc_reset c.sys) (report_feedback_message 5))))

  same : (c : Controller real) {code : Status} → Outcome real Untouched c (some (code, c))
  same c = answers (refl, refl, refl, refl, inl refl)

  run_free-Untouched :
      (c : Controller real)
      → is_idle c.sys.state ≡ false
      → is_alarm c.sys.state ≡ false
      → Outcome real Untouched c (some (run_free real (char_at c.line 1) c))
  unfolding run_free
  run_free-Untouched c not_idle no_alarm =
      let letter = char_at c.line 1 in
      some_if-Outcome real (letter == b'$')
        (some_if-Outcome real (is_cycle_or_hold c.sys.state) (same c)
          (answers (refl, refl, refl, refl, inl refl)))
        (some_if-Outcome real (letter == b'G') (answers (refl, refl, refl, refl, inl refl)) (
          some_test-Outcome real (letter == b'C')
            (λ is.
              some_test-Outcome real (is_check_mode c.sys.state)
                (λ check. answers (refl, refl, refl, refl, inr (is, check, refl)))
                (λ _. rw (ap not not_idle) (same c)))
            (λ _. rw no_alarm (same c))))

  -- While the machine is neither idle nor in an alarm, no command changes the settings, the memory,
  -- the parser or the line, or runs g-code, and only `$C` in check mode changes the shared state.
  pub system_execute_line-Untouched :
      (e : Environment real) (c : Controller real)
      → is_idle c.sys.state ≡ false
      → is_alarm c.sys.state ≡ false
      → Outcome real Untouched c (system_execute_line real e c)
  unfolding system_execute_line
  system_execute_line-Untouched e c not_idle no_alarm =
      let letter = char_at c.line 1 in
      if-Outcome real (letter == 0) (answers (refl, refl, refl, refl, inl refl)) (
        if-Outcome real (is_free letter)
          (if-Outcome real (not (char_at c.line 2 == 0)) (same c)
            (run_free-Untouched c not_idle no_alarm))
          (rw not_idle (rw no_alarm (same c))))
