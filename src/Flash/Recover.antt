-- ===== src/Flash/Recover.antt =====
-- A restore that power loss interrupts, and the restore at the next start.
use cpcbm.Base.{ℕ, ◌+◌, ◌*◌, ◌≡◌, ◌<◌, ◌≤◌, sym, ◌∙◌, arith, ltb, if◌then◌else◌, inl, inr, ◌⊎◌}
use cpcbm.Flash.Record.{sets_bit_erased, sets_bit_own}
use cpcbm.Flash.Copy.{copy_words_at}
use cpcbm.Flash.Restore.{
  restore_at, restore_erased, delete_main_at, clear_copy_main, clear_copy_status,
}
use cpcbm.Flash.{
  Memory, Device, read_word, sector_copied, sector_erased, sector_cleared, main_sector_status,
  copy_words, main_base, copy_base, restore_offset, restore_main_sector, delete_main_sector,
  clear_copy, restore_default_sector_status,
}

-- The bytes that a restore moves.
abbrev pub moved_bytes : ℕ
moved_bytes = 4 * restore_offset

-- The copy sector holds bytes, and its status word is erased.
pub record IsCopy (m : Memory) : Type 0 where
  pub bytes : (o : ℕ) → o < moved_bytes → m (copy_base + o) < 256
  pub unmarked : read_word m (copy_base + restore_offset) ≡ sector_erased

-- The main sector is erased, but for bytes that have been restored already.
pub record IsPending (m : Memory) : Type 0 where
  pub erased : read_word m main_sector_status ≡ sector_erased
  pub partial :
      (o : ℕ)
      → o < moved_bytes
      → (m (main_base + o) ≡ 0xff) ⊎ (m (main_base + o) ≡ m (copy_base + o))

module _ (d : Device) where
  restore_partial :
      {m : Memory} (o : ℕ)
      → IsCopy m
      → IsPending m
      → o < moved_bytes
      → restore_main_sector d m (main_base + o) ≡ m (copy_base + o)
  restore_partial {m} o c p l = elim (p.partial o l) [
    | inl e ↦ restore_erased d m o l e (c.bytes o l)
    | inr e ↦
        restore_at d m o l
        ∙ rw e (
            d.program_lem (m (copy_base + o)) (m (copy_base + o))
              (sets_bit_own (m (copy_base + o)) (c.bytes o l)))
  ]

  restored_status :
      {m : Memory}
      → IsCopy m
      → IsPending m
      → read_word (restore_main_sector d m) main_sector_status ≡ sector_erased
  restored_status {m} c p =
      rw
        (
          restore_partial restore_offset c p (omega arith),
          restore_partial (restore_offset + 1) c p (omega arith),
          restore_partial (restore_offset + 2) c p (omega arith),
          restore_partial (restore_offset + 3) c p (omega arith),
        )
        c.unmarked

  erased_restores :
      (m : Memory)
      → read_word m main_sector_status ≡ sector_erased
      → restore_default_sector_status d m ≡ clear_copy d (restore_main_sector d m)
  unfolding restore_default_sector_status
  erased_restores m e = ground arith

  -- A pending restore is finished: the settings' bytes are those of the copy.
  pub restore_pending :
      {m : Memory}
      → IsCopy m
      → IsPending m
      → ((o : ℕ)
          → o < restore_offset
          → restore_default_sector_status d m (main_base + o) ≡ m (copy_base + o))
        × (read_word (restore_default_sector_status d m) main_sector_status ≡ sector_cleared)
  restore_pending {m} c p = rw (erased_restores m p.erased) (
    λ o l. clear_copy_main d (restore_main_sector d m) o l ∙ restore_partial o c p (omega arith),
    clear_copy_status d (restore_main_sector d m) (restored_status c p),
  )

  copied_restores :
      (m : Memory)
      → read_word m main_sector_status ≡ sector_copied
      → restore_default_sector_status d m
        ≡ clear_copy d (restore_main_sector d (delete_main_sector d m))
  unfolding restore_default_sector_status
  copied_restores m e = ground arith

  -- The state in which power is lost after `k` words of the restore.
  abbrev pub interrupted : ℕ → Memory → Memory
  interrupted k m = copy_words d k copy_base main_base (delete_main_sector d m)

  interrupted_copy :
      (k : ℕ) (m : Memory) (o : ℕ)
      → k ≤ restore_offset
      → o < moved_bytes
      → interrupted k m (copy_base + o) ≡ m (copy_base + o)
  interrupted_copy k m o h l =
      copy_words_at d k (delete_main_sector d m) copy_base main_base (copy_base + o) (omega arith)
      ∙ ground (arith, delete_main_at d m (copy_base + o))

  interrupted_main :
      (k : ℕ) (m : Memory) (o : ℕ)
      → IsCopy m
      → k ≤ restore_offset
      → o < moved_bytes
      → interrupted k m (main_base + o) ≡ (if ltb o (4 * k) then m (copy_base + o) else 0xff)
  interrupted_main k m o c h l =
      copy_words_at d k (delete_main_sector d m) copy_base main_base (main_base + o) (omega arith)
      ∙ ground (
        arith,
        delete_main_at d m (main_base + o),
        delete_main_at d m (copy_base + o),
        d.program_lem 0xff (m (copy_base + o)) (sets_bit_erased (m (copy_base + o)) (c.bytes o l)),
      )

  interrupted-IsCopy :
      (k : ℕ) {m : Memory} → IsCopy m → k ≤ restore_offset → IsCopy (interrupted k m)
  interrupted-IsCopy k {m} c h = record {
    bytes = λ o l. rw (interrupted_copy k m o h l) (c.bytes o l);
    unmarked =
        rw
          (
            interrupted_copy k m restore_offset h (omega arith),
            interrupted_copy k m (restore_offset + 1) h (omega arith),
            interrupted_copy k m (restore_offset + 2) h (omega arith),
            interrupted_copy k m (restore_offset + 3) h (omega arith),
          )
          c.unmarked;
  }

  interrupted-IsPending :
      (k : ℕ) {m : Memory} → IsCopy m → k ≤ restore_offset → IsPending (interrupted k m)
  interrupted-IsPending k {m} c h = record {
    erased = ground (
      arith,
      c.unmarked,
      interrupted_main k m restore_offset c h (omega arith),
      interrupted_main k m (restore_offset + 1) c h (omega arith),
      interrupted_main k m (restore_offset + 2) c h (omega arith),
      interrupted_main k m (restore_offset + 3) c h (omega arith),
    );
    partial = λ o l. ground (arith, interrupted_main k m o c h l, interrupted_copy k m o h l);
  }

  copied_from_erased :
      (m : Memory)
      → IsCopy m
      → read_word m main_sector_status ≡ sector_copied
      → restore_default_sector_status d m ≡ restore_default_sector_status d (interrupted 0 m)
  unfolding copy_words
  copied_from_erased m c e =
      copied_restores m e
      ∙ sym (
          erased_restores (delete_main_sector d m)
            ((interrupted-IsPending 0 {m = m} c (omega arith)).erased))

  -- The main sector has been copied and marked so. If the restore is not interrupted, or if power is
  -- lost after the main sector's erase and any number of words, and the restore runs again at the
  -- next start, then the settings' bytes of the main sector are in the end those of the copy, and
  -- the main sector is marked as clear.
  pub restore_survives_power_loss :
      (k : ℕ) {m : Memory}
      → IsCopy m
      → read_word m main_sector_status ≡ sector_copied
      → k ≤ restore_offset
      → ((o : ℕ)
          → o < restore_offset
          → (restore_default_sector_status d m (main_base + o) ≡ m (copy_base + o))
            × (restore_default_sector_status d (interrupted k m) (main_base + o)
                ≡ m (copy_base + o)))
        × (read_word (restore_default_sector_status d m) main_sector_status ≡ sector_cleared)
        × (read_word (restore_default_sector_status d (interrupted k m)) main_sector_status
            ≡ sector_cleared)
  restore_survives_power_loss k {m} c e h =
      let whole =
        restore_pending (interrupted-IsCopy 0 c (omega arith))
          (interrupted-IsPending 0 c (omega arith)) in
      let part = restore_pending (interrupted-IsCopy k c h) (interrupted-IsPending k c h) in
      let start = copied_from_erased m c e in
      (
        λ o l. (
          rw start (whole.0 o l) ∙ interrupted_copy 0 m o (omega arith) (omega arith),
          part.0 o l ∙ interrupted_copy k m o h (omega arith),
        ),
        rw start whole.1,
        part.1,
      )
