-- ===== src/Flash/Record.antt =====
-- A record with its checksum: what is written where no bit has to be set is read back.
use cpcbm.Base.{
  ℕ, suc, ◌+◌, ◌≡◌, ◌≢◌, ◌<◌, refl, ap, ◌∙◌, Bool, true, false, List, [], ◌∷◌, length, arith, inl,
  inr, Bool-cases, ◌⊎◌, eq→==, ==→eq, not,
}
use cpcbm.Base.Table.{holds_under, holds_under_lem}
use cpcbm.Flash.{
  Memory, Device, sets_bit, checksum_step, verify_loop, flash_verify_erase_need, read_loop,
  memcpy_from_flash_with_checksum, flash_put_char, write_loop, memcpy_to_flash_with_checksum,
}

-- No byte of a record, nor its checksum, needs a bit to be set.
abbrev pub Fits : Memory → ℕ → List ℕ → ℕ → Type 0
Fits m a [] c = sets_bit (m a) c ≡ false
Fits m a (x ∷ xs) c = (sets_bit (m a) x ≡ false) × Fits m (a + 1) xs (checksum_step c x)

not-true : (b : Bool) → not b ≡ true → b ≡ false
not-true true h = cc
not-true false h = refl

erased_table : holds_under (λ v. not (sets_bit 0xff v)) 256 ≡ true
unfolding holds_under sets_bit
erased_table = refl

own_table : holds_under (λ v. not (sets_bit v v)) 256 ≡ true
unfolding holds_under sets_bit
own_table = refl

-- An erased byte takes every value, and a byte its own.
pub sets_bit_erased : (v : ℕ) → v < 256 → sets_bit 0xff v ≡ false
sets_bit_erased v h = not-true _ (holds_under_lem (λ x. not (sets_bit 0xff x)) 256 v h erased_table)

pub sets_bit_own : (v : ℕ) → v < 256 → sets_bit v v ≡ false
sets_bit_own v h = not-true _ (holds_under_lem (λ x. not (sets_bit x x)) 256 v h own_table)

pub checksum_step_lt : (c x : ℕ) → checksum_step c x < 256
unfolding checksum_step
checksum_step_lt c x = omega arith

-- The checksum that is stored is that of the bytes in front of it, or it is erased.
abbrev pub HasChecksum : Memory → ℕ → ℕ → ℕ → Type 0
HasChecksum m a size c = ((read_loop m a size c).1 ≡ true) ⊎ (m (a + size) ≡ 0xff)

HasChecksum-next :
    (m : Memory) (a size c : ℕ)
    → HasChecksum m a (suc size) c
    → HasChecksum m (a + 1) size (checksum_step c (m a))
unfolding read_loop
HasChecksum-next m a size c (inl h) = inl h
HasChecksum-next m a size c (inr h) = inr (ap m (omega arith) ∙ h)

-- If the check says that no erase is needed, the new record fits over the stored one.
verify_loop-Fits :
    (xs : List ℕ) (m : Memory) (a o n : ℕ)
    → n < 256
    → HasChecksum m a (length xs) o
    → verify_loop m a xs o n ≡ false
    → Fits m a xs n
unfolding verify_loop read_loop
verify_loop-Fits [] m a o n l (inl h) v = ground (arith, ==→eq o (m a) h)
verify_loop-Fits [] m a o n l (inr h) v =
    let here : m a ≡ 0xff = ground (arith, h) in rw here (sets_bit_erased n l)
verify_loop-Fits (x ∷ xs) m a o n l h v = elim (Bool-cases (sets_bit (m a) x)) [
  | inl e ↦ absurd (cc (rw e at v))
  | inr e ↦ (
    e,
    verify_loop-Fits xs m (a + 1) (checksum_step o (m a)) (checksum_step n x) (checksum_step_lt n x)
        (HasChecksum-next m a (length xs) o h) (rw e at v),
  )
]

module _ (d : Device) where
  pub put_other : (m : Memory) (a v x : ℕ) → x ≢ a → flash_put_char d m a v x ≡ m x
  unfolding flash_put_char
  put_other m a v x ne = ground arith

  pub put_same : (m : Memory) (a v : ℕ) → sets_bit (m a) v ≡ false → flash_put_char d m a v a ≡ v
  unfolding flash_put_char
  put_same m a v h = rw (eq→== a a refl) (d.program_lem (m a) v h)

  -- Nothing is written outside the record.
  pub write_loop_outside :
      (xs : List ℕ) (m : Memory) (a c x : ℕ)
      → (x < a) ⊎ (a + length xs < x)
      → write_loop d m a xs c x ≡ m x
  unfolding write_loop
  write_loop_outside [] m a c x h = put_other m a c x (omega arith)
  write_loop_outside (y ∷ xs) m a c x h =
      write_loop_outside xs (flash_put_char d m a y) (a + 1) (checksum_step c y) x (omega arith)
      ∙ put_other m a y x (omega arith)

  pub Fits-put :
      (xs : List ℕ) (m : Memory) (b v a c : ℕ)
      → b < a
      → Fits m a xs c
      → Fits (flash_put_char d m b v) a xs c
  Fits-put [] m b v a c l h = rw (put_other m b v a (omega arith)) h
  Fits-put (x ∷ xs) m b v a c l (h, hs) = (
    rw (put_other m b v a (omega arith)) h,
    Fits-put xs m b v (a + 1) (checksum_step c x) (omega arith) hs,
  )

  pub read_loop-write_loop :
      (xs : List ℕ) (m : Memory) (a c : ℕ)
      → Fits m a xs c
      → read_loop (write_loop d m a xs c) a (length xs) c ≡ (xs, true)
  unfolding read_loop write_loop
  read_loop-write_loop [] m a c h = rw (put_same m a c h, eq→== c c refl) refl
  read_loop-write_loop (x ∷ xs) m a c (h, hs) =
      rw
        (
          write_loop_outside xs (flash_put_char d m a x) (a + 1) (checksum_step c x) a
              (omega arith),
          put_same m a x h,
          read_loop-write_loop xs (flash_put_char d m a x) (a + 1) (checksum_step c x)
              (Fits-put xs m a x (a + 1) (checksum_step c x) (omega arith) hs),
        )
        refl

  -- A record that is written where `flash_verify_erase_need` says that no erase is needed, over a
  -- record with its checksum or with an erased checksum, is read back with a good checksum; and
  -- nothing outside the record changes.
  pub memcpy_from-memcpy_to :
      (m : Memory) (a : ℕ) (xs : List ℕ)
      → HasChecksum m a (length xs) 0
      → flash_verify_erase_need m a xs ≡ false
      → (memcpy_from_flash_with_checksum (memcpy_to_flash_with_checksum d m a xs) a (length xs)
          ≡ (xs, true))
        × ((x : ℕ) → (x < a) ⊎ (a + length xs < x) → memcpy_to_flash_with_checksum d m a xs x ≡ m x)
  unfolding flash_verify_erase_need memcpy_from_flash_with_checksum memcpy_to_flash_with_checksum
  memcpy_from-memcpy_to m a xs h v = (
    read_loop-write_loop xs m a 0 (verify_loop-Fits xs m a 0 0 (omega arith) h v),
    write_loop_outside xs m a 0,
  )
