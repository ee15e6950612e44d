-- ===== src/Tests/Storage.antt =====
-- The settings in a flash memory whose programming of a byte clears bits.
use cpcbm.Base.{
  some, ℕ, ◌+◌, ◌≡◌, ◌<◌, ◌≤◌, refl, arith, true, false, ◌&&◌, List, [], ◌∷◌, leb, ltb, ◌==◌,
  if◌then◌else◌, inl, ◌⊎◌,
}
use Prim.Native.Nat.{bit_and}
use cpcbm.Base.Bits.{no_bits}
use cpcbm.Flash.{
  Memory, Device, sets_bit, main_base, copy_base, main_sector, main_sector_status, restore_offset,
  read_word, sector_cleared, restore_default_sector_status, flash_verify_erase_need, verify_loop,
  read_loop, checksum_step,
}
use cpcbm.Flash.Erased.{AreBytes}
use cpcbm.Flash.Record.{HasChecksum}
use cpcbm.Flash.Recover.{IsCopy, interrupted, restore_survives_power_loss}
use cpcbm.Settings.Storage.{coord_offset, settings_write_coord_data, settings_read_coord_data}
use cpcbm.Settings.Exchange.{IsMain}
use cpcbm.Settings.Coord.{settings_read_coord_data-settings_write_coord_data}
use cpcbm.Settings.Global.{
  GlobalSettings, Machine, settings_store_global_setting, find_axis_setting, port_invert_mask,
}
use cpcbm.Settings.Stored.{
  IsConsistent, settings_store_global_setting-IsConsistent, find_axis_setting_lem,
}
use cpcbm.Settings.Outcome.{Outcome}
use cpcbm.Tests.Natural.{natural}

abbrev program : ℕ → ℕ → ℕ
program old_value new_value =
    if sets_bit old_value new_value then bit_and old_value new_value else new_value

pub program_value :
    (old_value new_value : ℕ)
    → sets_bit old_value new_value ≡ false
    → program old_value new_value ≡ new_value
program_value old_value new_value h = rw h refl

abbrev pub flash : Device
flash = record {
  program = program;
  erases = λ sector a.
      if sector == main_sector
      then (leb main_base a && ltb a copy_base)
      else (leb copy_base a && ltb a (copy_base + 0x20000));
  program_lem = program_value;
  erases_main = λ a. refl;
  erases_copy = λ a. refl;
}

-- The copy sector is complete, and the main sector is marked as copied.
abbrev copied : Memory
copied a =
    if leb copy_base a && ltb a (copy_base + restore_offset)
    then 7
    else if leb (main_sector_status + 1) a && ltb a (main_sector_status + 4)
    then 0
    else 0xff

copied-IsCopy : IsCopy copied
copied-IsCopy = record { bytes = λ o l. ground arith; unmarked = refl }

restore_survives_power_loss_example :
    ((o : ℕ)
      → o < restore_offset
      → (restore_default_sector_status flash copied (main_base + o) ≡ copied (copy_base + o))
        × (restore_default_sector_status flash (interrupted flash 3 copied) (main_base + o)
            ≡ copied (copy_base + o)))
    × (read_word (restore_default_sector_status flash copied) main_sector_status ≡ sector_cleared)
    × (read_word
          (restore_default_sector_status flash (interrupted flash 3 copied))
          main_sector_status
        ≡ sector_cleared)
restore_survives_power_loss_example =
    restore_survives_power_loss flash 3 {m = copied} copied-IsCopy refl (omega arith)

-- The main sector in use: the data of coordinate system 2 are zero, and the rest is erased.
abbrev in_use : Memory
in_use a =
    if leb (main_sector_status + 2) a && ltb a (main_sector_status + 4)
    then 0
    else if leb (main_base + coord_offset 2) a && ltb a (main_base + coord_offset 2 + 13)
    then 0
    else 0xff

in_use-IsMain : IsMain in_use
in_use-IsMain = record { bytes = λ o l. ground arith; cleared = refl }

abbrev new_data : List ℕ
new_data = 1 ∷ 2 ∷ 3 ∷ 4 ∷ 5 ∷ 6 ∷ 7 ∷ 8 ∷ 9 ∷ 10 ∷ 11 ∷ 12 ∷ []

new_data-AreBytes : AreBytes new_data
new_data-AreBytes = ground arith

-- The new data need an erase.
data_erases : flash_verify_erase_need in_use (main_base + coord_offset 2) new_data ≡ true
unfolding flash_verify_erase_need verify_loop sets_bit
data_erases = refl

stored-HasChecksum : HasChecksum in_use (main_base + coord_offset 2) 12 0
unfolding read_loop checksum_step
stored-HasChecksum = inl refl

settings_read_coord_data-settings_write_coord_data_example :
    (settings_read_coord_data flash (settings_write_coord_data flash in_use 2 new_data) 2
      ≡ ((new_data, true), settings_write_coord_data flash in_use 2 new_data))
    × ((o : ℕ)
        → o < restore_offset
        → (o < coord_offset 2) ⊎ (coord_offset 2 + 16 ≤ o)
        → settings_write_coord_data flash in_use 2 new_data (main_base + o)
          ≡ in_use (main_base + o))
    × (read_word (settings_write_coord_data flash in_use 2 new_data) main_sector_status
        ≡ sector_cleared)
settings_read_coord_data-settings_write_coord_data_example =
    settings_read_coord_data-settings_write_coord_data flash in_use in_use-IsMain 2 (omega arith)
      new_data refl new_data-AreBytes stored-HasChecksum

abbrev pub settings : GlobalSettings natural
settings = record {
  steps_per_mm = record { x = 250; y = 250; z = 250 };
  max_rate = record { x = 500; y = 500; z = 500 };
  acceleration = record { x = 36000; y = 36000; z = 36000 };
  max_travel = record { x = 200; y = 200; z = 200 };
  pulse_microseconds = 10;
  step_invert_mask = 0;
  dir_invert_mask = 0;
  stepper_idle_lock_time = 25;
  status_report_mask = 3;
  junction_deviation = 1;
  arc_tolerance = 1;
  flags = no_bits;
  homing_dir_mask = 0;
  homing_feed_rate = 25;
  homing_seek_rate = 500;
  homing_debounce_delay = 250;
  homing_pulloff = 1;
  spindle_pwm_period = 1000;
  spindle_pwm_max_time_on = 900;
  spindle_pwm_min_time_on = 100;
  spindle_pwm_enable_at_start = 0;
}

abbrev pub machine : Machine natural
machine = record {
  settings = settings;
  step_port_invert_mask = no_bits;
  dir_port_invert_mask = no_bits;
  limit_interrupts = false;
  memory = in_use;
}

machine-IsConsistent : IsConsistent natural machine
unfolding port_invert_mask
machine-IsConsistent = record {
  soft_needs_homing = λ h. h;
  pulse = omega arith;
  step_mask = refl;
  direction_mask = refl;
  limits = refl;
}

-- The bytes that a record has are not computed here.
abbrev pub bytes_of : GlobalSettings natural → List ℕ
bytes_of s = s.pulse_microseconds ∷ s.step_invert_mask ∷ s.dir_invert_mask ∷ []

-- `$20=1`: soft limits, while homing is off.
settings_store_global_setting-IsConsistent_example :
    IsConsistent natural ((settings_store_global_setting natural flash bytes_of 20 1 machine).1)
settings_store_global_setting-IsConsistent_example =
    settings_store_global_setting-IsConsistent natural flash bytes_of 20 1 machine-IsConsistent

-- The rate of the Z axis.
find_axis_setting_lem_example : find_axis_setting 4 0 12 ≡ some (1, 2)
find_axis_setting_lem_example = find_axis_setting_lem 12
