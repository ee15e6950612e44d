-- ===== src/GCode.antt =====
-- common_src/gcode.c and gcode.h: the g-code parser. Here are the types of gcode.h; `Words` and
-- `Parse` read the words of a line (step 2 of `gc_execute_line`), `Check` checks the block (step 3),
-- `Execute` executes it (step 4), and `Line` puts the steps together.
pub mod Group
pub mod Word
pub mod Words
pub mod Parse
pub mod Check
pub mod Execute
pub mod Line
use cpcbm.Base.{ℕ, Bool, true, false}
use cpcbm.Base.Bits.{Bits, no_bits}
use cpcbm.Base.Real.{Real, Vec}

-- STATUS_* that the parser and the `$` commands return.
pub data Status : Type 0 where
  status_ok expected_command_letter bad_number_format negative_value setting_read_fail : Status
  unsupported_command modal_group_violation undefined_feed_rate : Status
  command_value_not_integer axis_command_conflict word_repeated no_axis_words : Status
  invalid_line_number value_word_missing unsupported_coord_sys : Status
  g53_invalid_motion_mode axis_words_exist no_axis_words_in_plane invalid_target : Status
  arc_radius_error no_offsets_in_plane unused_words g43_dynamic_axis_error : Status
  invalid_statement setting_disabled setting_step_pulse_min idle_error alarm_lock soft_limit_error :
      Status

abbrev pub is_ok : Status → Bool
is_ok status_ok = true
is_ok _ = false

-- A block that passes, or the status with which `FAIL` returns.
pub data Result {ℓ} (A : Type ℓ) : Type ℓ where
  pass : A → Result A
  fail : Status → Result A
  -- STATUS_SETTING_READ_FAIL: the stored coordinate data with this index fail their checksum
  read_fails : ℕ → Result A

infixl 5 ◌>>=◌ ◌>>◌
abbrev pub ◌>>=◌ {ℓ κ} : {A : Type ℓ} {B : Type κ} → Result A → (A → Result B) → Result B
pass a >>= f = f a
fail e >>= f = fail e
read_fails i >>= f = read_fails i

abbrev pub ◌>>◌ {ℓ} : {B : Type ℓ} → Result (Unit {0}) → Result B → Result B
m >> k = m >>= λ _. k

-- AXIS_COMMAND_*
pub data AxisCommand : Type 0 where
  no_command non_modal motion_mode tool_length_offset : AxisCommand

-- NON_MODAL_*
pub data NonModal : Type 0 where
  no_action dwell set_coordinate_data go_home_0 set_home_0 go_home_1 set_home_1 : NonModal
  absolute_override set_coordinate_offset reset_coordinate_offset : NonModal

-- MOTION_MODE_*
pub data Motion : Type 0 where
  seek linear cw_arc ccw_arc probe_toward probe_toward_no_error probe_away : Motion
  probe_away_no_error motion_none : Motion

-- FEED_RATE_MODE_*, UNITS_MODE_*, DISTANCE_MODE_*, PLANE_SELECT_*
pub data FeedRateMode : Type 0 where
  units_per_min inverse_time : FeedRateMode

pub data Units : Type 0 where
  mm inches : Units

pub data Distance : Type 0 where
  absolute incremental : Distance

pub data Plane : Type 0 where
  xy zx yz : Plane

-- TOOL_LENGTH_OFFSET_*, PROGRAM_FLOW_*, SPINDLE_*, COOLANT_*
pub data ToolLength : Type 0 where
  cancel enable_dynamic : ToolLength

pub data ProgramFlow : Type 0 where
  running paused completed : ProgramFlow

pub data Spindle : Type 0 where
  spindle_disable spindle_cw spindle_ccw : Spindle

pub data Coolant : Type 0 where
  coolant_disable coolant_mist coolant_flood : Coolant

-- gc_modal_t
pub record Modal : Type 0 where
  pub motion : Motion
  pub feed_rate : FeedRateMode
  pub units : Units
  pub distance : Distance
  pub plane_select : Plane
  pub tool_length : ToolLength
  pub coord_select : ℕ
  pub program_flow : ProgramFlow
  pub coolant : Coolant
  pub spindle : Spindle

module _ (real : Real) where
  open real use {R, decimal}

  -- gc_values_t
  pub record Values : Type 0 where
    pub f : R
    pub ijk : Vec R
    pub l : ℕ
    pub n : ℕ
    pub p : R
    pub r : R
    pub s : R
    pub t : ℕ
    pub xyz : Vec R

  -- parser_state_t
  pub record Parser : Type 0 where
    pub modal : Modal
    pub spindle_speed : R
    pub feed_rate : R
    pub tool : ℕ
    pub line_number : ℕ
    pub position : Vec R
    pub coord_system : Vec R
    pub coord_offset : Vec R
    pub tool_length_offset : R

  -- parser_block_t, and the local variables of `gc_execute_line` that track the block.
  pub record Block : Type 0 where
    pub non_modal_command : NonModal
    pub modal : Modal
    pub values : Values
    pub axis_command : AxisCommand
    pub axis_words : Bits
    pub ijk_words : Bits
    pub command_words : Bits
    pub value_words : Bits

  abbrev pub zero_vec : Vec R
  zero_vec = record { x = decimal 0 0; y = decimal 0 0; z = decimal 0 0 }

  abbrev pub zero_values : Values
  zero_values = record {
    f = decimal 0 0;
    ijk = zero_vec;
    l = 0;
    n = 0;
    p = decimal 0 0;
    r = decimal 0 0;
    s = decimal 0 0;
    t = 0;
    xyz = zero_vec;
  }

  -- Step 1: a cleared block with the current modes.
  abbrev pub new_block : Parser → Block
  new_block st = record {
    non_modal_command = no_action;
    modal = st.modal;
    values = zero_values;
    axis_command = no_command;
    axis_words = no_bits;
    ijk_words = no_bits;
    command_words = no_bits;
    value_words = no_bits;
  }
