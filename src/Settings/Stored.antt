-- ===== src/Settings/Stored.antt =====
-- What a `$x=value` command leaves behind.
use cpcbm.Base.{
  ℕ, zero, suc, ◌-◌, ◌/◌, ◌%◌, ◌&&◌, ◌≡◌, ◌≤◌, true, arith, List, none, some, ltb, leb,
  if◌then◌else◌, Bool-cases, Option-cases, inl, inr,
}
use cpcbm.Base.Real.{Real, Axis}
use cpcbm.GCode.{Status, is_ok}
use cpcbm.Flash.{Device}
use cpcbm.Settings.Global.{
  soft_limit_enable_flag, homing_enable_flag, hard_limit_enable_flag, port_invert_mask, step_bit,
  direction_bit, Setting, step_pulse, step_idle_delay, step_port_invert, dir_port_invert,
  step_enable_invert, limit_pins_invert, probe_pin_invert, status_report, junction, arc, inches,
  soft_limits, hard_limits, homing_cycle, homing_dir_invert, homing_feed, homing_seek,
  homing_debounce, pull_off, pwm_period, pwm_max, pwm_min, pwm_enable, settings_in_order,
  find_setting, axis_of, find_axis_setting, axis_n_settings, axis_settings_start_val,
  axis_settings_increment, GlobalSettings, Machine, st_generate_step_dir_invert_masks, limits_init,
  store_axis_setting, store_setting, store_numbered, settings_store_global_setting, write_back,
}

-- The loop that looks for an axis setting gives, for every number, the setting that its tens name and
-- the axis that its last digit names, and an error where there are none: the settings of the axis
-- `a` are the numbers `10 * s + a`, for `s` below AXIS_N_SETTINGS and `a` below N_AXIS.
pub find_axis_setting_lem :
    (parameter : ℕ)
    → find_axis_setting axis_n_settings 0 parameter ≡ (
        if ltb (parameter / axis_settings_increment) axis_n_settings
          && ltb (parameter % axis_settings_increment) 3
        then some (parameter / axis_settings_increment, parameter % axis_settings_increment)
        else none)
unfolding find_axis_setting
find_axis_setting_lem parameter = ground arith

module _ (real : Real) where
  open real use {R, decimal, lt, trunc_u8}

  -- Soft limits are on only with homing, the step pulse is long enough, and what the stepper driver
  -- and the limit switches keep is what the settings say.
  pub record IsConsistent (m : Machine real) : Type 0 where
    pub soft_needs_homing :
        m.settings.flags soft_limit_enable_flag ≡ true → m.settings.flags homing_enable_flag ≡ true
    pub pulse : 3 ≤ m.settings.pulse_microseconds
    pub step_mask : m.step_port_invert_mask ≡ port_invert_mask step_bit m.settings.step_invert_mask
    pub direction_mask :
        m.dir_port_invert_mask ≡ port_invert_mask direction_bit m.settings.dir_invert_mask
    pub limits : m.limit_interrupts ≡ m.settings.flags hard_limit_enable_flag

  abbrev Consistently : Status × Machine real → Type 0
  Consistently (code, m) = IsConsistent m

  store_setting-IsConsistent :
      (s : Setting) (value : R) {m : Machine real}
      → IsConsistent m
      → Consistently (store_setting real s value m)
  unfolding store_setting st_generate_step_dir_invert_masks limits_init
  store_setting-IsConsistent step_pulse value c = ground arith
  store_setting-IsConsistent step_idle_delay value c = ground arith
  store_setting-IsConsistent step_port_invert value c = ground arith
  store_setting-IsConsistent dir_port_invert value c = ground arith
  store_setting-IsConsistent step_enable_invert value c = ground arith
  store_setting-IsConsistent limit_pins_invert value c = ground arith
  store_setting-IsConsistent probe_pin_invert value c = ground arith
  store_setting-IsConsistent status_report value c = ground arith
  store_setting-IsConsistent junction value c = ground arith
  store_setting-IsConsistent arc value c = ground arith
  store_setting-IsConsistent inches value c = ground arith
  store_setting-IsConsistent soft_limits value c = ground arith
  store_setting-IsConsistent hard_limits value c = ground arith
  store_setting-IsConsistent homing_cycle value c = ground arith
  store_setting-IsConsistent homing_dir_invert value c = ground arith
  store_setting-IsConsistent homing_feed value c = ground arith
  store_setting-IsConsistent homing_seek value c = ground arith
  store_setting-IsConsistent homing_debounce value c = ground arith
  store_setting-IsConsistent pull_off value c = ground arith
  store_setting-IsConsistent pwm_period value c = ground arith
  store_setting-IsConsistent pwm_max value c = ground arith
  store_setting-IsConsistent pwm_min value c = ground arith
  store_setting-IsConsistent pwm_enable value c = ground arith

  store_axis_setting-IsConsistent :
      (set_idx : ℕ) (axis : Axis) (value : R) {m : Machine real}
      → IsConsistent m
      → Consistently (store_axis_setting real set_idx axis value m)
  unfolding store_axis_setting
  store_axis_setting-IsConsistent zero axis value c = ground arith
  store_axis_setting-IsConsistent (suc zero) axis value c = ground arith
  store_axis_setting-IsConsistent (suc (suc zero)) axis value c = ground arith
  store_axis_setting-IsConsistent (suc (suc (suc zero))) axis value c = ground arith
  store_axis_setting-IsConsistent (suc (suc (suc (suc n)))) axis value c = c

  store_numbered-IsConsistent :
      (parameter : ℕ) (value : R) {m : Machine real}
      → IsConsistent m
      → Consistently (store_numbered real parameter value m)
  unfolding store_numbered
  store_numbered-IsConsistent parameter value {m} c =
      let offset = parameter - axis_settings_start_val in
      elim (Bool-cases (leb axis_settings_start_val parameter)) [
        | inl e ↦ elim (Option-cases (find_axis_setting axis_n_settings 0 offset)) [
          | inl n ↦ rw (e, n) c
          | inr ((i, a), f) ↦ rw (e, f) (store_axis_setting-IsConsistent i (axis_of a) value c)
        ]
        | inr e ↦ elim (Option-cases (find_setting settings_in_order parameter)) [
          | inl n ↦ rw (e, n) c
          | inr (s, f) ↦ rw (e, f) (store_setting-IsConsistent s value c)
        ]
      ]

  module _ (d : Device) (bytes_of : GlobalSettings real → List ℕ) where
    write_back-IsConsistent :
        (o : Status × Machine real)
        → Consistently o
        → IsConsistent ((write_back real d bytes_of o).1)
    write_back-IsConsistent (code, m) c = elim (Bool-cases (is_ok code)) [
      | inl e ↦ rw e (record {
        soft_needs_homing = c.soft_needs_homing;
        pulse = c.pulse;
        step_mask = c.step_mask;
        direction_mask = c.direction_mask;
        limits = c.limits;
      })
      | inr e ↦ rw e c
    ]

    -- Whatever the number and the value of a setting, the command keeps the machine consistent: soft
    -- limits are on only with homing, the step pulse is at least 3 microseconds, and the invert masks
    -- and the limit switches' interrupts are what the settings say.
    pub settings_store_global_setting-IsConsistent :
        (parameter : ℕ) (value : R) {m : Machine real}
        → IsConsistent m
        → IsConsistent ((settings_store_global_setting real d bytes_of parameter value m).1)
    unfolding settings_store_global_setting
    settings_store_global_setting-IsConsistent parameter value {m} c =
        elim (Bool-cases (lt value (decimal 0 0))) [
          | inl e ↦ rw e c
          | inr e ↦ rw e (
              write_back-IsConsistent (store_numbered real parameter value m)
                (store_numbered-IsConsistent parameter value c))
        ]
