-- ===== src/Probe.antt =====
-- common_src/probe.c: the probe pin, and the monitor that the stepper interrupt runs.
use cpcbm.Base.{Bool, true, false, not, ◌&&◌, if◌then◌else◌}
use cpcbm.Base.Int.{ℤ}
use cpcbm.Base.Real.{Vec}

-- `sys_probe_state`, `sys.probe_position`, `probe_invert_mask` (of which the probe's bit is used) and
-- the flag of EXEC_MOTION_CANCEL.
pub record Probe : Type 0 where
  pub active : Bool
  pub probe_position : Vec ℤ
  pub invert : Bool
  pub motion_cancel : Bool

-- The pin at the three tests of the monitor.
pub record Readings : Type 0 where
  pub first : Bool
  pub second : Bool
  pub third : Bool

abbrev pub differs : Bool → Bool → Bool
differs true b = not b
differs false b = b

-- The flag is BITFLAG_INVERT_PROBE_PIN of the settings.
unfoldable pub probe_configure_invert_mask : Bool → Bool → Probe → Probe
probe_configure_invert_mask invert_pin is_probe_away p =
    let initial = if not invert_pin then differs false true else false in
    record p { invert = if is_probe_away then differs initial true else initial }

unfoldable pub probe_get_state : Probe → Bool → Bool
probe_get_state p pin = differs pin p.invert

unfoldable pub probe_state_monitor : Readings → Vec ℤ → Probe → Probe
unfolding probe_get_state
probe_state_monitor pins position p =
    if p.active
      && (probe_get_state p pins.first
          && (probe_get_state p pins.second && probe_get_state p pins.third))
    then record p { active = false; probe_position = position; motion_cancel = true }
    else p
