-- ===== src/Flash/Restore.antt =====
-- The exchange of the sectors: what `restore_default_sector_status` leaves behind.
use cpcbm.Base.{
  ℕ, ◌+◌, ◌*◌, ◌≡◌, ◌<◌, ◌≤◌, refl, ◌∙◌, false, ◌&&◌, arith, leb, ltb, if◌then◌else◌, ◌⊎◌,
}
use cpcbm.Flash.Record.{sets_bit_erased}
use cpcbm.Flash.Copy.{copy_words_at}
use cpcbm.Flash.{
  Memory, Device, sets_bit, Word32, read_word, sector_copied, sector_erased, sector_cleared,
  main_sector_status, flash_put_char, flash_program_word, erase_sector, main_base, copy_base,
  restore_offset, restore_main_sector, delete_copy_sector, delete_main_sector,
  update_main_sector_status, clear_copy,
}

-- The status bytes take their next values: each step from cleared to copied, and from erased to
-- cleared, only clears bits.
abbrev pub CanBecome : Word32 → Word32 → Type 0
CanBecome v w =
    (sets_bit v.b0 w.b0 ≡ false)
    × (sets_bit v.b1 w.b1 ≡ false)
    × (sets_bit v.b2 w.b2 ≡ false)
    × (sets_bit v.b3 w.b3 ≡ false)

pub cleared_to_copied : CanBecome sector_cleared sector_copied
unfolding sets_bit
cleared_to_copied = (refl, refl, refl, refl)

pub erased_to_cleared : CanBecome sector_erased sector_cleared
unfolding sets_bit
erased_to_cleared = (refl, refl, refl, refl)

module _ (d : Device) where
  pub update_status_outside :
      (m : Memory) (w : Word32) (x : ℕ)
      → (x < main_sector_status) ⊎ (main_sector_status + 4 ≤ x)
      → update_main_sector_status d m w x ≡ m x
  unfolding update_main_sector_status flash_program_word flash_put_char
  update_status_outside m w x h = ground arith

  pub read_status-update :
      (m : Memory) (v w : Word32)
      → read_word m main_sector_status ≡ v
      → CanBecome v w
      → read_word (update_main_sector_status d m w) main_sector_status ≡ w
  unfolding update_main_sector_status flash_program_word flash_put_char
  read_status-update m v w e (h0, h1, h2, h3) = ground (
    arith,
    d.program_lem v.b0 w.b0 h0,
    d.program_lem v.b1 w.b1 h1,
    d.program_lem v.b2 w.b2 h2,
    d.program_lem v.b3 w.b3 h3,
  )

  pub delete_main_at :
      (m : Memory) (x : ℕ)
      → delete_main_sector d m x ≡ (if leb main_base x && ltb x copy_base then 0xff else m x)
  unfolding delete_main_sector erase_sector
  delete_main_at m x = rw (d.erases_main x) refl

  pub delete_copy_at :
      (m : Memory) (x : ℕ)
      → delete_copy_sector d m x
        ≡ (if leb copy_base x && ltb x (copy_base + 0x20000) then 0xff else m x)
  unfolding delete_copy_sector erase_sector
  delete_copy_at m x = rw (d.erases_copy x) refl

  pub restore_at :
      (m : Memory) (o : ℕ)
      → o < 4 * restore_offset
      → restore_main_sector d m (main_base + o) ≡ d.program (m (main_base + o)) (m (copy_base + o))
  unfolding restore_main_sector
  restore_at m o l =
      copy_words_at d restore_offset m copy_base main_base (main_base + o) (omega arith)
      ∙ ground arith

  -- An erased main sector takes the first bytes of the copy.
  pub restore_erased :
      (m : Memory) (o : ℕ)
      → o < 4 * restore_offset
      → m (main_base + o) ≡ 0xff
      → m (copy_base + o) < 256
      → restore_main_sector d m (main_base + o) ≡ m (copy_base + o)
  restore_erased m o l e b =
      restore_at m o l
      ∙ rw e (d.program_lem 0xff (m (copy_base + o)) (sets_bit_erased (m (copy_base + o)) b))

  -- The last stage leaves the settings' bytes of the main sector.
  pub clear_copy_main :
      (m : Memory) (o : ℕ) → o < restore_offset → clear_copy d m (main_base + o) ≡ m (main_base + o)
  unfolding clear_copy
  clear_copy_main m o l =
      update_status_outside (delete_copy_sector d m) sector_cleared (main_base + o) (omega arith)
      ∙ delete_copy_at m (main_base + o)
      ∙ ground arith

  pub clear_copy_status :
      (m : Memory)
      → read_word m main_sector_status ≡ sector_erased
      → read_word (clear_copy d m) main_sector_status ≡ sector_cleared
  unfolding clear_copy
  clear_copy_status m e =
      read_status-update (delete_copy_sector d m) sector_erased sector_cleared
        (ground (
          arith,
          delete_copy_at m main_sector_status,
          delete_copy_at m (main_sector_status + 1),
          delete_copy_at m (main_sector_status + 2),
          delete_copy_at m (main_sector_status + 3),
        ))
        erased_to_cleared
