-- ===== src/Flash.antt =====
-- stm32/f4/nucleo-f401re/flash.c: the bytes of the flash memory, records with a checksum, and the
-- exchange of the two sectors that keep the settings. The memory is a function from addresses to
-- bytes; a 32-bit word is its four bytes, the lowest first. The functions that set up the flash
-- registers are not modelled: what they ask of the flash is the `Device`, a parameter.
pub mod Record
pub mod Erased
pub mod Copy
pub mod Restore
pub mod Recover
use Prim.Native.Nat.{bit_and, bit_or, bit_xor}
use cpcbm.Base.{
  ℕ, zero, suc, ◌+◌, ◌-◌, ◌*◌, ◌/◌, ◌%◌, ◌≡◌, ◌<◌, Bool, true, false, not, ◌&&◌, List, [], ◌∷◌, leb,
  ltb, ◌==◌, if◌then◌else◌,
}

abbrev pub Memory : Type 0
Memory = ℕ → ℕ

-- EFLASH_MAIN_BASE_ADDRESS, EFLASH_COPY_BASE_ADDRESS, MAIN_SECTOR and COPY_SECTOR
abbrev pub main_base : ℕ
main_base = 0x08040000

abbrev pub copy_base : ℕ
copy_base = 0x08060000

abbrev pub main_sector : ℕ
main_sector = 6

abbrev pub copy_sector : ℕ
copy_sector = 7

-- EFLASH_ERASE_AND_RESTORE_OFFSET
abbrev pub restore_offset : ℕ
restore_offset = 1020

-- Whether a byte has a bit that is 1 where the byte in its place has 0.
unfoldable pub sets_bit : ℕ → ℕ → Bool
sets_bit old_value new_value = not (bit_and (bit_xor old_value new_value) new_value == 0)

-- What the flash does, by the controller's manual: programming a byte clears bits, so that it gives
-- the new value where no bit has to be set, and an erase sets the bytes of a sector of 128 KB. What
-- programming gives where a bit would have to be set is left open.
pub record Device : Type 0 where
  pub program : ℕ → ℕ → ℕ
  pub erases : ℕ → ℕ → Bool
  pub program_lem :
      (old_value new_value : ℕ)
      → sets_bit old_value new_value ≡ false
      → program old_value new_value ≡ new_value
  pub erases_main : (a : ℕ) → erases main_sector a ≡ (leb main_base a && ltb a copy_base)
  pub erases_copy :
      (a : ℕ) → erases copy_sector a ≡ (leb copy_base a && ltb a (copy_base + 0x20000))

-- The checksum's step: a rotation to the left, and an addition.
unfoldable pub checksum_step : ℕ → ℕ → ℕ
checksum_step checksum value = (bit_or (checksum * 2) (checksum / 128) % 256 + value) % 256

-- The loop of `flash_verify_erase_need`, with the two checksums.
unfoldable pub verify_loop : Memory → ℕ → List ℕ → ℕ → ℕ → Bool
verify_loop m destination [] old_checksum new_checksum = sets_bit old_checksum new_checksum
verify_loop m destination (x ∷ xs) old_checksum new_checksum =
    let rest =
      verify_loop m (destination + 1) xs (checksum_step old_checksum (m destination))
        (checksum_step new_checksum x) in
    if sets_bit (m destination) x then true else rest

unfoldable pub flash_verify_erase_need : Memory → ℕ → List ℕ → Bool
flash_verify_erase_need m destination source = verify_loop m destination source 0 0

-- The loop of `memcpy_from_flash_with_checksum`.
unfoldable pub read_loop : Memory → ℕ → ℕ → ℕ → List ℕ × Bool
read_loop m source zero checksum = ([], checksum == m source)
read_loop m source (suc size) checksum =
    let (rest, good) = read_loop m (source + 1) size (checksum_step checksum (m source)) in
    (m source ∷ rest, good)

unfoldable pub memcpy_from_flash_with_checksum : Memory → ℕ → ℕ → List ℕ × Bool
memcpy_from_flash_with_checksum m source size = read_loop m source size 0

-- A 32-bit word in memory.
pub record Word32 : Type 0 where
  pub b0 : ℕ
  pub b1 : ℕ
  pub b2 : ℕ
  pub b3 : ℕ

abbrev pub read_word : Memory → ℕ → Word32
read_word m a = record { b0 = m a; b1 = m (a + 1); b2 = m (a + 2); b3 = m (a + 3) }

abbrev pub is_word : Word32 → Word32 → Bool
is_word v w = v.b0 == w.b0 && v.b1 == w.b1 && v.b2 == w.b2 && v.b3 == w.b3

-- MAIN_SECTOR_COPIED, MAIN_SECTOR_ERASED, MAIN_SECTOR_RESTORED and COPY_SECTOR_CLEARED
abbrev pub sector_copied : Word32
sector_copied = record { b0 = 0xff; b1 = 0; b2 = 0; b3 = 0 }

abbrev pub sector_erased : Word32
sector_erased = record { b0 = 0xff; b1 = 0xff; b2 = 0xff; b3 = 0xff }

abbrev pub sector_restored : Word32
sector_restored = record { b0 = 0xff; b1 = 0xff; b2 = 0xff; b3 = 0 }

abbrev pub sector_cleared : Word32
sector_cleared = record { b0 = 0xff; b1 = 0xff; b2 = 0; b3 = 0 }

-- EFLASH_MAIN_SECTOR_STATUS
abbrev pub main_sector_status : ℕ
main_sector_status = main_base + restore_offset

module _ (d : Device) where
  unfoldable pub flash_put_char : Memory → ℕ → ℕ → Memory
  flash_put_char m addr new_value a = if a == addr then d.program (m addr) new_value else m a

  -- The loop of `memcpy_to_flash_with_checksum`.
  unfoldable pub write_loop : Memory → ℕ → List ℕ → ℕ → Memory
  write_loop m destination [] checksum = flash_put_char m destination checksum
  write_loop m destination (x ∷ xs) checksum =
      write_loop (flash_put_char m destination x) (destination + 1) xs (checksum_step checksum x)

  unfoldable pub memcpy_to_flash_with_checksum : Memory → ℕ → List ℕ → Memory
  memcpy_to_flash_with_checksum m destination source = write_loop m destination source 0

  unfoldable pub flash_program_word : Memory → ℕ → Word32 → Memory
  unfolding flash_put_char
  flash_program_word m a w =
      flash_put_char
        (flash_put_char (flash_put_char (flash_put_char m a w.b0) (a + 1) w.b1) (a + 2) w.b2)
        (a + 3) w.b3

  unfoldable pub erase_sector : Memory → ℕ → Memory
  erase_sector m sector a = if d.erases sector a then 0xff else m a

  unfoldable pub update_main_sector_status : Memory → Word32 → Memory
  update_main_sector_status m updated_status =
      flash_program_word m main_sector_status updated_status

  unfoldable pub delete_main_sector : Memory → Memory
  delete_main_sector m = erase_sector m main_sector

  unfoldable pub delete_copy_sector : Memory → Memory
  delete_copy_sector m = erase_sector m copy_sector

  -- The loops of `copy_from_main_to_copy` and `restore_main_sector`: `n` words.
  unfoldable pub copy_words : ℕ → ℕ → ℕ → Memory → Memory
  copy_words zero source destination m = m
  copy_words (suc n) source destination m =
      copy_words n (source + 4) (destination + 4)
        (flash_program_word m destination (read_word m source))

  -- The words that start below the end.
  unfoldable pub copy_from_main_to_copy : ℕ → ℕ → Memory → Memory
  copy_from_main_to_copy start end =
      copy_words ((end + 3 - start) / 4) (main_base + start) (copy_base + start)

  unfoldable pub restore_main_sector : Memory → Memory
  restore_main_sector = copy_words restore_offset copy_base main_base

  -- The cases fall through, from the last to the first.
  unfoldable pub clear_copy : Memory → Memory
  clear_copy m = update_main_sector_status (delete_copy_sector m) sector_cleared

  unfoldable pub restore_default_sector_status : Memory → Memory
  restore_default_sector_status m =
      let status = read_word m main_sector_status in
      if is_word status sector_copied
      then clear_copy (restore_main_sector (delete_main_sector m))
      else if is_word status sector_erased
      then clear_copy (restore_main_sector m)
      else if is_word status sector_restored
      then clear_copy m
      else if is_word status sector_cleared
      then m
      else delete_copy_sector (delete_main_sector m)
