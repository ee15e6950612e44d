-- ===== src/Settings/Coord.antt =====
-- Coordinate data: what `settings_write_coord_data` writes is what `settings_read_coord_data` reads,
-- whether or not the sectors have to be exchanged, and the other settings stay as they are.
use cpcbm.Base.{
  ℕ, ◌+◌, ◌*◌, ◌-◌, ◌≡◌, ◌<◌, ◌≤◌, refl, ap, sym, ◌∙◌, true, arith, inl, inr, ◌⊎◌, List, length,
  ltb, if◌then◌else◌, Bool-cases,
}
use cpcbm.Flash.Record.{
  Fits, HasChecksum, sets_bit_erased, read_loop-write_loop, write_loop_outside,
  memcpy_from-memcpy_to,
}
use cpcbm.Flash.Erased.{AreBytes, erased-Fits, read_loop_same, write_loop_bytes}
use cpcbm.Flash.Restore.{delete_copy_at}
use cpcbm.Flash.Recover.{IsCopy}
use cpcbm.Flash.Copy.{inside}
use cpcbm.Flash.{
  Memory, Device, read_word, sector_cleared, main_sector_status, main_base, copy_base,
  restore_offset, copy_from_main_to_copy, delete_copy_sector, memcpy_to_flash_with_checksum,
  memcpy_from_flash_with_checksum, flash_verify_erase_need,
}
use cpcbm.Settings.Exchange.{IsMain, exchange_sectors_main, exchange_sectors_status, copied_at}
use cpcbm.Settings.Storage.{
  exchange_sectors, coord_offset, coord_size, settings_write_coord_data, settings_read_coord_data,
}

module _ (d : Device) (m : Memory) (main : IsMain m) (k : ℕ) (in_range : k ≤ 7) (xs : List ℕ)
    (size : length xs ≡ coord_size) (bytes : AreBytes xs) where
  -- The copy sector in the rewrite: the record, and then what is copied around it.
  abbrev written : Memory
  written = memcpy_to_flash_with_checksum d (delete_copy_sector d m) (copy_base + coord_offset k) xs

  abbrev before : Memory
  before = copy_from_main_to_copy d 0 (coord_offset k) written

  abbrev copied : Memory
  copied = copy_from_main_to_copy d (coord_offset (k + 1)) restore_offset before

  erased_at : (o : ℕ) → o < 4096 → delete_copy_sector d m (copy_base + o) ≡ 0xff
  erased_at o l = delete_copy_at d m (copy_base + o) ∙ ground arith

  fits : Fits (delete_copy_sector d m) (copy_base + coord_offset k) xs 0
  fits =
      erased-Fits xs (delete_copy_sector d m) (copy_base + coord_offset k) 0 bytes (omega arith)
        (λ x l h.
          ap (delete_copy_sector d m) (omega arith) ∙ erased_at (x - copy_base) (omega arith))

  written_outside :
      (x : ℕ)
      → (x < copy_base + coord_offset k) ⊎ (copy_base + coord_offset k + 12 < x)
      → written x ≡ delete_copy_sector d m x
  unfolding memcpy_to_flash_with_checksum
  written_outside x h =
      write_loop_outside d xs (delete_copy_sector d m) (copy_base + coord_offset k) 0 x
        (omega arith)

  written_main : (o : ℕ) → o < 1024 → written (main_base + o) ≡ m (main_base + o)
  written_main o l =
      written_outside (main_base + o) (omega arith)
      ∙ delete_copy_at d m (main_base + o)
      ∙ ground arith

  before_at :
      (x : ℕ)
      → before x ≡ (
          if inside copy_base (coord_offset k) x
          then d.program (written x) (written (main_base + (x - copy_base)))
          else written x)
  before_at x =
      ap (λ j. copy_from_main_to_copy d 0 j written x) (omega arith)
      ∙ copied_at d written 0 (k * 4 + 128) x (omega arith) (omega arith)
      ∙ ground arith

  copied_rest_at :
      (x : ℕ)
      → copied x ≡ (
          if inside (copy_base + coord_offset (k + 1)) (restore_offset - coord_offset (k + 1)) x
          then d.program
              (before x)
              (before (main_base + coord_offset (k + 1) + (x - (copy_base + coord_offset (k + 1)))))
          else before x)
  copied_rest_at x =
      ap (λ i. copy_from_main_to_copy d i restore_offset before x) (omega arith)
      ∙ copied_at d before (k * 4 + 132) 255 x (omega arith) (omega arith)
      ∙ ground arith

  copied_main : (o : ℕ) → o < 1024 → copied (main_base + o) ≡ m (main_base + o)
  copied_main o l =
      copied_rest_at (main_base + o) ∙ ground (arith, before_at (main_base + o), written_main o l)

  copied_low : (o : ℕ) → o < coord_offset k → copied (copy_base + o) ≡ m (main_base + o)
  copied_low o l =
      copied_rest_at (copy_base + o)
      ∙ ground (
        arith,
        before_at (copy_base + o),
        written_main o (omega arith),
        written_outside (copy_base + o) (omega arith),
        erased_at o (omega arith),
        d.program_lem 0xff (m (main_base + o))
            (sets_bit_erased (m (main_base + o)) (main.bytes o (omega arith))),
      )

  copied_record :
      (o : ℕ)
      → coord_offset k ≤ o
      → o < coord_offset (k + 1)
      → copied (copy_base + o) ≡ written (copy_base + o)
  copied_record o h l = copied_rest_at (copy_base + o) ∙ ground (arith, before_at (copy_base + o))

  copied_high :
      (o : ℕ)
      → coord_offset (k + 1) ≤ o
      → o < 4096
      → copied (copy_base + o) ≡ (if ltb o restore_offset then m (main_base + o) else 0xff)
  copied_high o h l =
      copied_rest_at (copy_base + o)
      ∙ ground (
        arith,
        before_at (copy_base + o),
        before_at (main_base + o),
        written_main o,
        written_outside (copy_base + o) (omega arith),
        erased_at o (omega arith),
        d.program_lem 0xff (m (main_base + o)),
        sets_bit_erased (m (main_base + o)),
        main.bytes o,
      )

  written_bytes : (o : ℕ) → o < 4096 → written (copy_base + o) < 256
  unfolding memcpy_to_flash_with_checksum
  written_bytes o l =
      write_loop_bytes d xs (delete_copy_sector d m) (copy_base + coord_offset k) 0 (copy_base + o)
        bytes (omega arith) fits (omega (arith, erased_at o l))

  copied_bytes : (o : ℕ) → o < 4080 → copied (copy_base + o) < 256
  copied_bytes o l =
      ground (arith, copied_low o, copied_record o, copied_high o, written_bytes o, main.bytes o)

  copied-IsCopy : IsCopy copied
  copied-IsCopy = record {
    bytes = copied_bytes;
    unmarked =
        rw
          (
            copied_high restore_offset (omega arith) (omega arith),
            copied_high (restore_offset + 1) (omega arith) (omega arith),
            copied_high (restore_offset + 2) (omega arith) (omega arith),
            copied_high (restore_offset + 3) (omega arith) (omega arith),
          )
          refl;
  }

  copied_status : read_word copied main_sector_status ≡ sector_cleared
  copied_status =
      rw
        (
          copied_main restore_offset (omega arith),
          copied_main (restore_offset + 1) (omega arith),
          copied_main (restore_offset + 2) (omega arith),
          copied_main (restore_offset + 3) (omega arith),
        )
        main.cleared

  exchanged_record :
      memcpy_from_flash_with_checksum
        (exchange_sectors d copied)
        (main_base + coord_offset k)
        coord_size
      ≡ (xs, true)
  unfolding memcpy_from_flash_with_checksum memcpy_to_flash_with_checksum
  exchanged_record =
      read_loop_same coord_size (exchange_sectors d copied) written (main_base + coord_offset k)
        (copy_base + coord_offset k) 0
        (λ i l.
          ap (exchange_sectors d copied) (omega arith)
          ∙ exchange_sectors_main d (coord_offset k + i) copied-IsCopy copied_status (omega arith)
          ∙ copied_record (coord_offset k + i) (omega arith) (omega arith)
          ∙ ap written (omega arith))
      ∙ rw (sym size)
          (read_loop-write_loop d xs (delete_copy_sector d m) (copy_base + coord_offset k) 0 fits)

  exchanged_rest :
      (o : ℕ)
      → o < restore_offset
      → (o < coord_offset k) ⊎ (coord_offset k + 16 ≤ o)
      → exchange_sectors d copied (main_base + o) ≡ m (main_base + o)
  exchanged_rest o l h =
      exchange_sectors_main d o copied-IsCopy copied_status l
      ∙ ground (arith, copied_low o, copied_high o)

  -- The main sector holds bytes and is marked as clear, the coordinate system's number is at most 7
  -- and the data are 12 bytes, and the record that they replace has its checksum or an erased one.
  -- Then, whether or not the sectors are exchanged, `settings_read_coord_data` reads what was
  -- written, finds it good and writes nothing; the settings outside the record's 16 bytes, and the
  -- main sector's mark, do not change.
  pub settings_read_coord_data-settings_write_coord_data :
      HasChecksum m (main_base + coord_offset k) coord_size 0
      → (settings_read_coord_data d (settings_write_coord_data d m k xs) k
          ≡ ((xs, true), settings_write_coord_data d m k xs))
        × ((o : ℕ)
            → o < restore_offset
            → (o < coord_offset k) ⊎ (coord_offset k + 16 ≤ o)
            → settings_write_coord_data d m k xs (main_base + o) ≡ m (main_base + o))
        × (read_word (settings_write_coord_data d m k xs) main_sector_status ≡ sector_cleared)
  unfolding settings_write_coord_data settings_read_coord_data
  settings_read_coord_data-settings_write_coord_data has_checksum =
      elim (Bool-cases (flash_verify_erase_need m (main_base + coord_offset k) xs)) [
        | inl e ↦
            rw (e, exchanged_record)
              (refl, exchanged_rest, exchange_sectors_status d copied-IsCopy copied_status)
        | inr e ↦
            (let all =
                memcpy_from-memcpy_to d m (main_base + coord_offset k) xs (rw size has_checksum)
                  e in
              let read = rw size at all.0 in
              rw (e, read)
                (
                  refl,
                  λ o l h. all.1 (main_base + o) (omega arith),
                  rw
                      (
                        all.1 main_sector_status (omega arith),
                        all.1 (main_sector_status + 1) (omega arith),
                        all.1 (main_sector_status + 2) (omega arith),
                        all.1 (main_sector_status + 3) (omega arith),
                      )
                      main.cleared,
                ))
      ]
