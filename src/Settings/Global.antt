-- ===== src/Settings/Global.antt =====
-- common_src/settings.c: `settings_store_global_setting`, which a `$x=value` command calls, with what
-- it regenerates in stepper.c and limits.c. The default configuration has no MAX_STEP_RATE_HZ.
use cpcbm.Base.{
  ℕ, zero, suc, ◌+◌, ◌-◌, ◌/◌, ◌%◌, ◌^◌, Bool, true, false, not, ◌||◌, List, [], ◌∷◌, Option, none,
  some, ◌==◌, ltb, leb, if◌then◌else◌,
}
use cpcbm.Base.Bits.{Bits, no_bits, with_bit, without_bits}
use cpcbm.Base.Real.{Real, Vec, Axis, put}
use cpcbm.GCode.{
  is_ok, Status, status_ok, negative_value, invalid_statement, setting_step_pulse_min,
  soft_limit_error,
}
use cpcbm.Flash.{Memory, Device}
use cpcbm.Settings.Storage.{write_global_settings}

-- BITFLAG_* of `settings.flags`
abbrev pub report_inches_flag : ℕ
report_inches_flag = 0

abbrev pub invert_st_enable_flag : ℕ
invert_st_enable_flag = 2

abbrev pub hard_limit_enable_flag : ℕ
hard_limit_enable_flag = 3

abbrev pub homing_enable_flag : ℕ
homing_enable_flag = 4

abbrev pub soft_limit_enable_flag : ℕ
soft_limit_enable_flag = 5

abbrev pub invert_limit_pins_flag : ℕ
invert_limit_pins_flag = 6

abbrev pub invert_probe_pin_flag : ℕ
invert_probe_pin_flag = 7

-- AXIS_N_SETTINGS, AXIS_SETTINGS_START_VAL and AXIS_SETTINGS_INCREMENT
abbrev pub axis_n_settings : ℕ
axis_n_settings = 4

abbrev pub axis_settings_start_val : ℕ
axis_settings_start_val = 100

abbrev pub axis_settings_increment : ℕ
axis_settings_increment = 10

-- The cases of the switch over the numbers of the other settings, by what report.c calls them.
pub data Setting : Type 0 where
  step_pulse step_idle_delay step_port_invert dir_port_invert step_enable_invert : Setting
  limit_pins_invert probe_pin_invert status_report junction arc inches : Setting
  soft_limits hard_limits homing_cycle homing_dir_invert homing_feed homing_seek : Setting
  homing_debounce pull_off pwm_period pwm_max pwm_min pwm_enable : Setting

-- The case labels.
unfoldable pub setting_number : Setting → ℕ
setting_number step_pulse = 0
setting_number step_idle_delay = 1
setting_number step_port_invert = 2
setting_number dir_port_invert = 3
setting_number step_enable_invert = 4
setting_number limit_pins_invert = 5
setting_number probe_pin_invert = 6
setting_number status_report = 10
setting_number junction = 11
setting_number arc = 12
setting_number inches = 13
setting_number soft_limits = 20
setting_number hard_limits = 21
setting_number homing_cycle = 22
setting_number homing_dir_invert = 23
setting_number homing_feed = 24
setting_number homing_seek = 25
setting_number homing_debounce = 26
setting_number pull_off = 27
setting_number pwm_period = 28
setting_number pwm_max = 29
setting_number pwm_min = 30
setting_number pwm_enable = 31

abbrev pub settings_in_order : List Setting
settings_in_order =
    step_pulse ∷ step_idle_delay ∷ step_port_invert ∷ dir_port_invert ∷ step_enable_invert
    ∷ limit_pins_invert ∷ probe_pin_invert ∷ status_report ∷ junction ∷ arc ∷ inches ∷ soft_limits
    ∷ hard_limits ∷ homing_cycle ∷ homing_dir_invert ∷ homing_feed ∷ homing_seek ∷ homing_debounce
    ∷ pull_off ∷ pwm_period ∷ pwm_max ∷ pwm_min ∷ pwm_enable ∷ []

-- The switch: the first case with the number, `none` for the default.
unfoldable pub find_setting : List Setting → ℕ → Option Setting
unfolding setting_number
find_setting [] parameter = none
find_setting (s ∷ ss) parameter =
    let rest = find_setting ss parameter in if parameter == setting_number s then some s else rest

-- The axis of an index below N_AXIS.
abbrev pub axis_of : ℕ → Axis
axis_of zero = Axis.x_axis
axis_of (suc zero) = Axis.y_axis
axis_of _ = Axis.z_axis

-- The loop over the axis settings, with the settings that are left: the setting's index and the
-- axis, or `none` where it returns an error.
unfoldable pub find_axis_setting : ℕ → ℕ → ℕ → Option (ℕ × ℕ)
find_axis_setting zero set_idx parameter = none
find_axis_setting (suc n) set_idx parameter =
    let rest = find_axis_setting n (set_idx + 1) (parameter - axis_settings_increment) in
    if ltb parameter 3
    then some (set_idx, parameter)
    else if ltb parameter axis_settings_increment || set_idx + 1 == axis_n_settings
    then none
    else rest

-- `bit_istrue(x, bit(i))`
abbrev pub is_bit : ℕ → ℕ → Bool
is_bit x i = x / 2 ^ i % 2 == 1

-- The bit numbers of cpu_map_nucleof401.h, in `get_step_pin_mask` and `get_direction_pin_mask`.
abbrev pub step_bit : ℕ → ℕ
step_bit zero = 10
step_bit (suc zero) = 3
step_bit _ = 5

abbrev pub direction_bit : ℕ → ℕ
direction_bit zero = 4
direction_bit (suc zero) = 10
direction_bit _ = 8

-- One mask of `st_generate_step_dir_invert_masks`.
abbrev pub invert_bit : (ℕ → ℕ) → ℕ → ℕ → Bits → Bits
invert_bit pin mask idx bits = if is_bit mask idx then with_bit (pin idx) bits else bits

unfoldable pub port_invert_mask : (ℕ → ℕ) → ℕ → Bits
port_invert_mask pin mask =
    invert_bit pin mask 2 (invert_bit pin mask 1 (invert_bit pin mask 0 no_bits))

abbrev pub put_flag : ℕ → Bool → Bits → Bits
put_flag flag on flags = if on then with_bit flag flags else without_bits (flag ∷ []) flags

module _ (real : Real) where
  open real use {R, decimal, mul, neg, lt, trunc_u8, trunc_u16, trunc_u32}

  -- settings_t
  pub record GlobalSettings : Type 0 where
    pub steps_per_mm : Vec R
    pub max_rate : Vec R
    pub acceleration : Vec R
    pub max_travel : Vec R
    pub pulse_microseconds : ℕ
    pub step_invert_mask : ℕ
    pub dir_invert_mask : ℕ
    pub stepper_idle_lock_time : ℕ
    pub status_report_mask : ℕ
    pub junction_deviation : R
    pub arc_tolerance : R
    pub flags : Bits
    pub homing_dir_mask : ℕ
    pub homing_feed_rate : R
    pub homing_seek_rate : R
    pub homing_debounce_delay : ℕ
    pub homing_pulloff : R
    pub spindle_pwm_period : ℕ
    pub spindle_pwm_max_time_on : ℕ
    pub spindle_pwm_min_time_on : ℕ
    pub spindle_pwm_enable_at_start : ℕ

  -- The settings, what the stepper driver and the limit pins keep of them, and the flash memory.
  pub record Machine : Type 0 where
    pub settings : GlobalSettings
    pub step_port_invert_mask : Bits
    pub dir_port_invert_mask : Bits
    pub limit_interrupts : Bool
    pub memory : Memory

  unfoldable pub st_generate_step_dir_invert_masks : Machine → Machine
  unfolding port_invert_mask
  st_generate_step_dir_invert_masks m = record m {
    step_port_invert_mask = port_invert_mask step_bit m.settings.step_invert_mask;
    dir_port_invert_mask = port_invert_mask direction_bit m.settings.dir_invert_mask;
  }

  -- The limit switches' interrupts; the pins' set-up is not modelled.
  unfoldable pub limits_init : Machine → Machine
  limits_init m = record m { limit_interrupts = m.settings.flags hard_limit_enable_flag }

  -- An assignment to the settings.
  abbrev pub assign : Machine → GlobalSettings → Status × Machine
  assign m s = (status_ok, record m { settings = s })

  abbrev pub assign_flag : Machine → ℕ → Bool → Status × Machine
  assign_flag m flag on = assign m (record m.settings { flags = put_flag flag on m.settings.flags })

  -- The cases for the axes.
  unfoldable pub store_axis_setting : ℕ → Axis → R → Machine → Status × Machine
  store_axis_setting zero axis value m =
      assign m (record m.settings { steps_per_mm = put m.settings.steps_per_mm axis value })
  store_axis_setting (suc zero) axis value m =
      assign m (record m.settings { max_rate = put m.settings.max_rate axis value })
  store_axis_setting (suc (suc zero)) axis value m = assign m (record m.settings {
    acceleration = put m.settings.acceleration axis (mul (mul value (decimal 60 0)) (decimal 60 0));
  })
  store_axis_setting (suc (suc (suc zero))) axis value m =
      assign m (record m.settings { max_travel = put m.settings.max_travel axis (neg value) })
  store_axis_setting _ axis value m = (status_ok, m)

  -- The other cases. `int_value` and its kind are the value without its fraction.
  unfoldable pub store_setting : Setting → R → Machine → Status × Machine
  unfolding st_generate_step_dir_invert_masks limits_init
  store_setting step_pulse value m =
      if ltb (trunc_u8 value) 3
      then (setting_step_pulse_min, m)
      else assign m (record m.settings { pulse_microseconds = trunc_u8 value })
  store_setting step_idle_delay value m =
      assign m (record m.settings { stepper_idle_lock_time = trunc_u8 value })
  store_setting step_port_invert value m = (
    status_ok,
    st_generate_step_dir_invert_masks
        (record m { settings = record m.settings { step_invert_mask = trunc_u8 value } }),
  )
  store_setting dir_port_invert value m = (
    status_ok,
    st_generate_step_dir_invert_masks
        (record m { settings = record m.settings { dir_invert_mask = trunc_u8 value } }),
  )
  store_setting step_enable_invert value m =
      assign_flag m invert_st_enable_flag (not (trunc_u8 value == 0))
  store_setting limit_pins_invert value m =
      assign_flag m invert_limit_pins_flag (not (trunc_u8 value == 0))
  store_setting probe_pin_invert value m =
      assign_flag m invert_probe_pin_flag (not (trunc_u8 value == 0))
  store_setting status_report value m =
      assign m (record m.settings { status_report_mask = trunc_u8 value })
  store_setting junction value m = assign m (record m.settings { junction_deviation = value })
  store_setting arc value m = assign m (record m.settings { arc_tolerance = value })
  store_setting inches value m = assign_flag m report_inches_flag (not (trunc_u8 value == 0))
  store_setting soft_limits value m =
      if trunc_u8 value == 0
      then assign_flag m soft_limit_enable_flag false
      else if not (m.settings.flags homing_enable_flag)
      then (soft_limit_error, m)
      else assign_flag m soft_limit_enable_flag true
  store_setting hard_limits value m =
      let (code, r) = assign_flag m hard_limit_enable_flag (not (trunc_u8 value == 0)) in
      (code, limits_init r)
  store_setting homing_cycle value m =
      if trunc_u8 value == 0
      then (let (code, r) = assign_flag m homing_enable_flag false in
          assign_flag r soft_limit_enable_flag false)
      else assign_flag m homing_enable_flag true
  store_setting homing_dir_invert value m =
      assign m (record m.settings { homing_dir_mask = trunc_u8 value })
  store_setting homing_feed value m = assign m (record m.settings { homing_feed_rate = value })
  store_setting homing_seek value m = assign m (record m.settings { homing_seek_rate = value })
  store_setting homing_debounce value m =
      assign m (record m.settings { homing_debounce_delay = trunc_u16 value })
  store_setting pull_off value m = assign m (record m.settings { homing_pulloff = value })
  store_setting pwm_period value m =
      assign m (record m.settings { spindle_pwm_period = trunc_u32 value })
  store_setting pwm_max value m =
      assign m (record m.settings { spindle_pwm_max_time_on = trunc_u32 value })
  store_setting pwm_min value m =
      assign m (record m.settings { spindle_pwm_min_time_on = trunc_u32 value })
  store_setting pwm_enable value m =
      assign m (record m.settings { spindle_pwm_enable_at_start = trunc_u32 value })

  -- The case for a number.
  unfoldable pub store_numbered : ℕ → R → Machine → Status × Machine
  unfolding store_axis_setting find_axis_setting find_setting store_setting
  store_numbered parameter value m =
      if leb axis_settings_start_val parameter
      then elim (find_axis_setting axis_n_settings 0 (parameter - axis_settings_start_val)) [
        | none ↦ (invalid_statement, m)
        | some (set_idx, axis) ↦ store_axis_setting set_idx (axis_of axis) value m
      ]
      else elim (find_setting settings_in_order parameter) [
        | none ↦ (invalid_statement, m)
        | some setting ↦ store_setting setting value m
      ]

  module _ (d : Device) (bytes_of : GlobalSettings → List ℕ) where
    -- The end of the function, which an error does not reach.
    abbrev pub write_back : Status × Machine → Status × Machine
    write_back (code, r) =
        if is_ok code
        then (code, record r { memory = write_global_settings d r.memory (bytes_of r.settings) })
        else (code, r)

    -- The status, and what is left. `bytes_of` is the record as the compiler lays it out.
    unfoldable pub settings_store_global_setting : ℕ → R → Machine → Status × Machine
    unfolding store_numbered
    settings_store_global_setting parameter value m =
        if lt value (decimal 0 0)
        then (negative_value, m)
        else write_back (store_numbered parameter value m)
