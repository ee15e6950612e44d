-- ===== src/Settings/Storage.antt =====
-- common_src/settings.c, for the NUCLEO build: the records in flash. A record is the bytes that it
-- has in memory: the way that the compiler lays out `settings_t` and the bytes of a `float` are not
-- code of the repository.
use cpcbm.Base.{
  ℕ, zero, suc, ◌+◌, ◌-◌, ◌*◌, Bool, true, false, List, Option, none, some, ◌==◌, if◌then◌else◌,
  length, set, replicate,
}
use cpcbm.Base.Bits.{Bits}
use cpcbm.Flash.{
  Memory, Device, main_base, copy_base, restore_offset, sector_copied, flash_put_char,
  flash_verify_erase_need, memcpy_to_flash_with_checksum, memcpy_from_flash_with_checksum,
  copy_from_main_to_copy, delete_copy_sector, update_main_sector_status,
  restore_default_sector_status,
}

-- SETTINGS_VERSION, and the EFLASH_ADDR_* offsets
abbrev pub settings_version : ℕ
settings_version = 9

abbrev pub global_offset : ℕ
global_offset = 4

abbrev pub parameters_offset : ℕ
parameters_offset = 512

abbrev pub startup_block_offset : ℕ
startup_block_offset = 768

abbrev pub build_info_offset : ℕ
build_info_offset = 944

-- LINE_BUFFER_SIZE, and `sizeof(float)*N_AXIS`
abbrev pub line_size : ℕ
line_size = 80

abbrev pub coord_size : ℕ
coord_size = 12

-- The offset of a set of coordinate data, and of a startup line.
abbrev pub coord_offset : ℕ → ℕ
coord_offset coord_select = coord_select * 16 + parameters_offset

abbrev pub startup_offset : ℕ → ℕ
startup_offset n = n * (line_size + 4) + startup_block_offset

-- SETTINGS_RESTORE_*
abbrev pub restore_defaults : ℕ
restore_defaults = 0

abbrev pub restore_parameters : ℕ
restore_parameters = 1

abbrev pub restore_startup_lines : ℕ
restore_startup_lines = 2

abbrev pub restore_build_info : ℕ
restore_build_info = 3

module _ (d : Device) where
  -- The end of every rewrite of the main sector through the copy sector.
  unfoldable pub exchange_sectors : Memory → Memory
  exchange_sectors m = restore_default_sector_status d (update_main_sector_status d m sector_copied)

  -- The settings' check compares them with the bytes from the start of the sector, where the version
  -- is, and not with the bytes where they are written.
  unfoldable pub write_global_settings : Memory → List ℕ → Memory
  unfolding exchange_sectors
  write_global_settings m settings =
      if flash_verify_erase_need m main_base settings
      then (let cleared = flash_put_char d (delete_copy_sector d m) copy_base settings_version in
          let written =
            memcpy_to_flash_with_checksum d cleared (copy_base + global_offset) settings in
          exchange_sectors (copy_from_main_to_copy d parameters_offset restore_offset written))
      else memcpy_to_flash_with_checksum d (flash_put_char d m main_base settings_version)
          (main_base + global_offset) settings

  unfoldable pub settings_write_coord_data : Memory → ℕ → List ℕ → Memory
  unfolding exchange_sectors
  settings_write_coord_data m coord_select coord_data =
      let offset = coord_offset coord_select in
      if flash_verify_erase_need m (main_base + offset) coord_data
      then (let written =
            memcpy_to_flash_with_checksum d (delete_copy_sector d m) (copy_base + offset)
              coord_data in
          exchange_sectors (
            copy_from_main_to_copy d (coord_offset (coord_select + 1)) restore_offset
              (copy_from_main_to_copy d 0 offset written)))
      else memcpy_to_flash_with_checksum d m (main_base + offset) coord_data

  -- The second copy starts at the word behind the line, which holds its checksum.
  unfoldable pub settings_store_startup_line : Memory → ℕ → List ℕ → Memory
  unfolding exchange_sectors
  settings_store_startup_line m n line =
      let offset = startup_offset n in
      if flash_verify_erase_need m (main_base + offset) line
      then (let written =
            memcpy_to_flash_with_checksum d (delete_copy_sector d m) (copy_base + offset) line in
          exchange_sectors (
            copy_from_main_to_copy d (offset + line_size) restore_offset
              (copy_from_main_to_copy d 0 (offset - 1) written)))
      else memcpy_to_flash_with_checksum d m (main_base + offset) line

  -- The end of the copy is an address, and not an offset.
  unfoldable pub settings_store_build_info : Memory → List ℕ → Memory
  unfolding exchange_sectors
  settings_store_build_info m line =
      let addr = main_base + build_info_offset in
      if flash_verify_erase_need m addr line
      then (let written =
            memcpy_to_flash_with_checksum d (delete_copy_sector d m) (copy_base + build_info_offset)
              line in
          exchange_sectors (copy_from_main_to_copy d 0 addr written))
      else memcpy_to_flash_with_checksum d m addr line

  -- What is read, whether it was good, and the memory: a bad record is replaced.
  unfoldable pub settings_read_coord_data : Memory → ℕ → (List ℕ × Bool) × Memory
  settings_read_coord_data m coord_select =
      let (coord_data, good) =
        memcpy_from_flash_with_checksum m (main_base + coord_offset coord_select) coord_size in
      let cleared : List ℕ = replicate coord_size 0 in
      if good
      then ((coord_data, true), m)
      else ((cleared, false), settings_write_coord_data m coord_select cleared)

  unfoldable pub settings_read_startup_line : Memory → ℕ → (List ℕ × Bool) × Memory
  settings_read_startup_line m n =
      let (line, good) =
        memcpy_from_flash_with_checksum m (main_base + startup_offset n) line_size in
      let emptied = set line 0 0 in
      if good
      then ((line, true), m)
      else ((emptied, false), settings_store_startup_line m n emptied)

  unfoldable pub settings_read_build_info : Memory → (List ℕ × Bool) × Memory
  settings_read_build_info m =
      let (line, good) =
        memcpy_from_flash_with_checksum m (main_base + build_info_offset) line_size in
      let emptied = set line 0 0 in
      if good then ((line, true), m) else ((emptied, false), settings_store_build_info m emptied)

  -- `none` is the failure.
  unfoldable pub read_global_settings : Memory → ℕ → Option (List ℕ)
  read_global_settings m size =
      let (settings, good) = memcpy_from_flash_with_checksum m (main_base + global_offset) size in
      if m main_base == settings_version then (if good then some settings else none) else none

  -- The loop of `settings_restore` over the coordinate data, from `idx` on.
  unfoldable pub clear_coords : ℕ → ℕ → Memory → Memory
  clear_coords zero idx m = m
  clear_coords (suc n) idx m =
      clear_coords n (idx + 1) (settings_write_coord_data m idx (replicate coord_size 0))

  -- `settings_restore` on the memory, where `defaults` are the bytes of the default settings.
  unfoldable pub settings_restore : Bits → List ℕ → Memory → Memory
  unfolding clear_coords
  settings_restore restore_flag defaults m =
      let m1 = if restore_flag restore_defaults then write_global_settings m defaults else m in
      let m2 = if restore_flag restore_parameters then clear_coords 8 0 m1 else m1 in
      let m3 =
        if restore_flag restore_startup_lines
        then flash_put_char d (flash_put_char d m2 (main_base + startup_offset 0) 0)
            (main_base + startup_offset 1) 0
        else m2 in
      if restore_flag restore_build_info
      then flash_put_char d m3 (main_base + build_info_offset) 0
      else m3

  -- The settings in force, and the memory.
  unfoldable pub settings_init : List ℕ → Memory → List ℕ × Memory
  settings_init defaults m =
      let checked = restore_default_sector_status d m in
      elim (read_global_settings checked (length defaults)) [
        | some settings ↦ (settings, checked)
        | none ↦ (defaults, settings_restore (λ _. true) defaults checked)
      ]
