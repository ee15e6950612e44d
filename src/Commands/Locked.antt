-- ===== src/Commands/Locked.antt =====
-- What the commands leave alone while the machine is locked or at work.
use cpcbm.Base.{
  ℕ, zero, suc, ◌+◌, ◌≡◌, ◌⊎◌, refl, ap, ◌∙◌, inl, inr, Bool, true, false, not, ◌||◌, Option, none,
  some, ◌==◌, arith,
}
use cpcbm.Base.Real.{Real}
use cpcbm.Base.Bits.{Bits}
use cpcbm.System.{State, Sys}
use cpcbm.MotionControl.{mc_reset}
use cpcbm.GCode.{Status}
use cpcbm.Commands.{
  Environment, Controller, Answer, run_free, is_free, is_idle, is_alarm, is_check_mode,
  is_cycle_or_hold, n_startup_line,
}
use cpcbm.Commands.Outcome.{
  Outcome, answers, if-Outcome, some_if-Outcome, test-Outcome, some_test-Outcome,
}
use cpcbm.Commands.Buffer.{char_at}
use cpcbm.Commands.Numbered.{number_at, store_setting_at, store_number, store_value, store_at}
use cpcbm.Commands.Execute.{
  read_startup, print_startup, print_startup_from, build_info, restore_by, restore_flag_of, restore,
  startup_lines, run_idle, system_execute_line,
}

mc_reset-state : (s : Sys) → (mc_reset s).state ≡ s.state
unfolding mc_reset
mc_reset-state s = ground arith

last_free :
    (letter : ℕ)
    → is_free letter ≡ true
    → (letter == b'$') ≡ false
    → (letter == b'G') ≡ false
    → (letter == b'C') ≡ false
    → (letter == b'X') ≡ true
last_free letter free p q r = ground arith

locked : {s : State} → s ≡ State.alarm → not (is_idle s) ≡ true
locked alarm = ap (λ t. not (is_idle t)) alarm

module _ (real : Real) where
  -- No g-code has run, and the state is the same or the command was $X.
  abbrev pub Still : Controller real → Answer real → Type 0
  Still c (_, t) =
      (t.parser ≡ c.parser)
      × (t.gcode_calls ≡ c.gcode_calls)
      × ((t.sys.state ≡ c.sys.state) ⊎ ((char_at c.line 1 == b'X') ≡ true))

  same : (c : Controller real) {code : Status} → Outcome real Still c (some (code, c))
  same c = answers (refl, refl, inl refl)

  module _ (e : Environment real) where
    print_startup-Still :
        (n : ℕ) (read : Bool × Controller real)
        → ((print_startup real e n read).parser ≡ read.1.parser)
          × ((print_startup real e n read).gcode_calls ≡ read.1.gcode_calls)
          × ((print_startup real e n read).sys.state ≡ read.1.sys.state)
    print_startup-Still n (true, c) = (refl, refl, refl)
    print_startup-Still n (false, c) = (refl, refl, refl)

    print_startup_from-Still :
        (count n : ℕ) (c : Controller real)
        → ((print_startup_from real e count n c).parser ≡ c.parser)
          × ((print_startup_from real e count n c).gcode_calls ≡ c.gcode_calls)
          × ((print_startup_from real e count n c).sys.state ≡ c.sys.state)
    unfolding print_startup_from
    print_startup_from-Still zero n c = (refl, refl, refl)
    print_startup_from-Still (suc count) n c =
        let read = read_startup real e n c in
        let t = print_startup real e n read in
        let (p, q, r) = print_startup-Still n read in
        let (p', q', r') = print_startup_from-Still count (n + 1) t in (p' ∙ p, q' ∙ q, r' ∙ r)

    store_value-Still :
        (parameter : real.R) (c : Controller real) (o : Option (real.R × ℕ))
        → Outcome real Still c (some (store_value real e parameter c o))
    store_value-Still parameter c none = same c
    store_value-Still parameter c (some (value, end)) =
        some_if-Outcome real
          (not (char_at c.line end == 0) || real.lt (real.decimal 255 0) parameter) (same c)
          (answers (refl, refl, inl refl))

    store_number-Still :
        (c : Controller real) (o : Option (real.R × ℕ))
        → Outcome real Still c (store_number real e false c o)
    unfolding store_setting_at
    store_number-Still c none = same c
    store_number-Still c (some (parameter, end)) =
        if-Outcome real _ (same c)
          (store_value-Still parameter c (number_at real e (end + 1) c.line))

    build_info-Still : (c : Controller real) → Outcome real Still c (some (build_info real e c))
    unfolding build_info
    build_info-Still c =
        some_if-Outcome real (char_at c.line 2 == 0) (answers (refl, refl, inl refl)) (
          some_if-Outcome real (not (char_at c.line 2 == b'=')) (same c)
            (answers (refl, refl, inl refl)))

    restore_by-Still :
        (c : Controller real) (o : Option Bits)
        → Outcome real Still c (some (restore_by real e o c))
    restore_by-Still c none = same c
    restore_by-Still c (some flag) = answers (refl, refl, inl (mc_reset-state _))

    restore-Still : (c : Controller real) → Outcome real Still c (some (restore real e c))
    unfolding restore
    restore-Still c =
        some_if-Outcome real
          (not (char_at c.line 2 == b'S')
            || (not (char_at c.line 3 == b'T')
                || (not (char_at c.line 4 == b'=') || not (char_at c.line 6 == 0))))
          (same c) (restore_by-Still c (restore_flag_of real e (char_at c.line 5)))

    startup_lines-Still :
        (c : Controller real)
        → c.sys.state ≡ State.alarm
        → Outcome real Still c (startup_lines real e c)
    unfolding startup_lines
    startup_lines-Still c alarm =
        let (p, q, r) = print_startup_from-Still n_startup_line 0 c in
        rw (locked alarm) (if-Outcome real (char_at c.line 2 == 0) (answers (p, q, inl r)) (same c))

    run_free-Still :
        (c : Controller real)
        → c.sys.state ≡ State.alarm
        → is_free (char_at c.line 1) ≡ true
        → Outcome real Still c (some (run_free real (char_at c.line 1) c))
    unfolding run_free
    run_free-Still c alarm free =
        let letter = char_at c.line 1 in
        some_test-Outcome real (letter == b'$')
          (λ _.
            some_if-Outcome real (is_cycle_or_hold c.sys.state) (same c)
              (answers (refl, refl, inl refl)))
          (λ not_list.
            some_test-Outcome real (letter == b'G') (λ _. answers (refl, refl, inl refl))
              (λ not_modes.
                some_test-Outcome real (letter == b'C')
                  (λ _. rw (ap is_check_mode alarm) (rw (locked alarm) (same c)))
                  (λ not_check.
                    some_if-Outcome real (is_alarm c.sys.state)
                      (answers
                        (refl, refl, inr (last_free letter free not_list not_modes not_check)))
                      (same c))))

    run_idle-Still :
        (c : Controller real)
        → c.sys.state ≡ State.alarm
        → (char_at c.line 1 == b'H') ≡ false
        → Outcome real Still c (run_idle real e (char_at c.line 1) c)
    unfolding run_idle store_at
    run_idle-Still c alarm other =
        let letter = char_at c.line 1 in
        if-Outcome real (letter == b'#')
          (if-Outcome real _ (same c) (answers (refl, refl, inl refl)))
          (rw other (
            if-Outcome real (letter == b'I') (build_info-Still c) (
              if-Outcome real (letter == b'R') (restore-Still c) (
                if-Outcome real (letter == b'N') (startup_lines-Still c alarm)
                  (store_number-Still c (number_at real e 1 c.line))))))

    pub system_execute_line-Still :
        (c : Controller real)
        → c.sys.state ≡ State.alarm
        → (char_at c.line 1 == b'H') ≡ false
        → Outcome real Still c (system_execute_line real e c)
    unfolding system_execute_line
    system_execute_line-Still c alarm other =
        let letter = char_at c.line 1 in
        if-Outcome real (letter == 0) (answers (refl, refl, inl refl)) (
          test-Outcome real (is_free letter)
            (λ free. if-Outcome real _ (same c) (run_free-Still c alarm free))
            (λ _. if-Outcome real _ (same c) (run_idle-Still c alarm other)))
