-- ===== src/Limits.antt =====
-- common_src/limits.c: the check of a target against the soft limits, without
-- HOMING_FORCE_SET_ORIGIN. What a round of `protocol_execute_realtime` does is a parameter.
use cpcbm.Base.{
  ℕ, zero, suc, Bool, true, false, ◌||◌, Option, none, some, List, [], ◌∷◌, if◌then◌else◌,
}
use cpcbm.Base.Real.{Real, Vec, Axis, x_axis, y_axis, z_axis, at}
use cpcbm.System.{State, Sys}
use cpcbm.MotionControl.{mc_reset}
pub mod Soft

abbrev pub is_running : State → Bool
is_running State.cycle = true
is_running _ = false

abbrev pub is_idle_state : State → Bool
is_idle_state State.idle = true
is_idle_state _ = false

module _ (real : Real) (protocol_execute_realtime : Sys → Sys) where
  open real use {R, decimal, lt}

  -- `max_travel` is stored as a negative number.
  abbrev pub is_outside : R → R → Bool
  is_outside target max_travel = lt (decimal 0 0) target || lt target max_travel

  -- The reset and the alarm at a soft limit.
  abbrev pub raise_soft_limit : Sys → Sys
  raise_soft_limit s =
      let reset = mc_reset s in
      protocol_execute_realtime
        (record reset { alarms = record reset.alarms { soft_limit = true; critical_event = true } })

  -- The wait for the end of the cycle, which an abort ends too; `none` where the fuel is not enough.
  unfoldable pub wait_idle : ℕ → Sys → Option Sys
  unfolding mc_reset
  wait_idle zero s = none
  wait_idle (suc fuel) s =
      let t = protocol_execute_realtime s in
      let rest = wait_idle fuel t in
      if t.abort then some t else if is_idle_state t.state then some (raise_soft_limit t) else rest

  unfoldable pub stop_at_limit : ℕ → Sys → Option Sys
  unfolding wait_idle mc_reset
  stop_at_limit fuel s =
      if is_running s.state
      then wait_idle fuel (record s { exec = record s.exec { feed_hold = true } })
      else some (raise_soft_limit s)

  -- The loop over the axes.
  unfoldable pub check_axes : ℕ → List Axis → Vec R → Vec R → Sys → Option Sys
  unfolding stop_at_limit
  check_axes fuel [] target max_travel s = some s
  check_axes fuel (a ∷ axes) target max_travel s =
      let marked = record s {
        soft_limit = is_outside (at target a) (at max_travel a) || s.soft_limit;
      } in
      let rest = check_axes fuel axes target max_travel marked in
      if marked.soft_limit then stop_at_limit fuel marked else rest

  unfoldable pub limits_soft_check : ℕ → Vec R → Vec R → Sys → Option Sys
  unfolding check_axes
  limits_soft_check fuel target max_travel s =
      check_axes fuel (x_axis ∷ (y_axis ∷ (z_axis ∷ []))) target max_travel s
