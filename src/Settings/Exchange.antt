-- ===== src/Settings/Exchange.antt =====
-- The end of a rewrite: the copy sector, complete, becomes the main sector.
use cpcbm.Base.{ℕ, ◌+◌, ◌*◌, ◌≡◌, ◌<◌, ◌≤◌, ap, ◌∙◌, arith, ◌-◌, if◌then◌else◌}
use cpcbm.Flash.Restore.{cleared_to_copied, update_status_outside, read_status-update}
use cpcbm.Flash.Recover.{IsCopy, restore_survives_power_loss}
use cpcbm.Flash.Copy.{inside, copy_words_at}
use cpcbm.Flash.{
  Memory, Device, read_word, sector_copied, sector_cleared, main_sector_status, main_base,
  copy_base, restore_offset, update_main_sector_status, copy_from_main_to_copy, copy_words,
}
use cpcbm.Settings.Storage.{exchange_sectors}

-- The main sector holds bytes, and is marked as clear.
pub record IsMain (m : Memory) : Type 0 where
  pub bytes : (o : ℕ) → o < restore_offset → m (main_base + o) < 256
  pub cleared : read_word m main_sector_status ≡ sector_cleared

module _ (d : Device) where
  updated_copy :
      (m : Memory) (o : ℕ)
      → update_main_sector_status d m sector_copied (copy_base + o) ≡ m (copy_base + o)
  updated_copy m o = update_status_outside d m sector_copied (copy_base + o) (omega arith)

  updated-IsCopy : {m : Memory} → IsCopy m → IsCopy (update_main_sector_status d m sector_copied)
  updated-IsCopy {m} c = record {
    bytes = λ o l. rw (updated_copy m o) (c.bytes o l);
    unmarked =
        rw
          (
            updated_copy m restore_offset,
            updated_copy m (restore_offset + 1),
            updated_copy m (restore_offset + 2),
            updated_copy m (restore_offset + 3),
          )
          c.unmarked;
  }

  pub exchange_sectors_main :
      {m : Memory} (o : ℕ)
      → IsCopy m
      → read_word m main_sector_status ≡ sector_cleared
      → o < restore_offset
      → exchange_sectors d m (main_base + o) ≡ m (copy_base + o)
  unfolding exchange_sectors
  exchange_sectors_main {m} o c e l =
      let all =
        restore_survives_power_loss d 0 (updated-IsCopy c)
          (read_status-update d m sector_cleared sector_copied e cleared_to_copied) (omega arith) in
      (all.0 o l).0 ∙ updated_copy m o

  pub exchange_sectors_status :
      {m : Memory}
      → IsCopy m
      → read_word m main_sector_status ≡ sector_cleared
      → read_word (exchange_sectors d m) main_sector_status ≡ sector_cleared
  unfolding exchange_sectors
  exchange_sectors_status {m} c e =
      let all =
        restore_survives_power_loss d 0 (updated-IsCopy c)
          (read_status-update d m sector_cleared sector_copied e cleared_to_copied) (omega arith) in
      all.1

  -- Whole words that are copied to the copy sector.
  pub copied_at :
      (m : Memory) (i j x : ℕ)
      → i ≤ j
      → j ≤ 255
      → copy_from_main_to_copy d (4 * i) (4 * j) m x ≡ (
          if inside (copy_base + 4 * i) (4 * (j - i)) x
          then d.program (m x) (m (main_base + 4 * i + (x - (copy_base + 4 * i))))
          else m x)
  unfolding copy_from_main_to_copy
  copied_at m i j x h l =
      ap (λ n. copy_words d n (main_base + 4 * i) (copy_base + 4 * i) m x) (omega arith)
      ∙ copy_words_at d (j - i) m (main_base + 4 * i) (copy_base + 4 * i) x (omega arith)
