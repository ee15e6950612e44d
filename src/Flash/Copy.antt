-- ===== src/Flash/Copy.antt =====
-- Copies of words between the sectors, byte by byte.
use cpcbm.Base.{
  ℕ, zero, suc, ◌+◌, ◌-◌, ◌*◌, ◌≡◌, ◌≤◌, ◌∙◌, Bool, ◌&&◌, arith, leb, ltb, if◌then◌else◌, ◌⊎◌,
}
use cpcbm.Flash.{Memory, Device, read_word, flash_put_char, flash_program_word, copy_words}

-- Whether an address is in the `size` bytes from `a`.
abbrev pub inside : ℕ → ℕ → ℕ → Bool
inside a size x = leb a x && ltb x (a + size)

module _ (d : Device) where
  program_word_at :
      (m : Memory) (s a x : ℕ)
      → flash_program_word d m a (read_word m s) x
        ≡ (if inside a 4 x then d.program (m x) (m (s + (x - a))) else m x)
  unfolding flash_program_word flash_put_char
  program_word_at m s a x = ground arith

  -- A copy of words from `s` to `a`, where the two regions are apart.
  pub copy_words_at :
      (n : ℕ) (m : Memory) (s a x : ℕ)
      → (s + 4 * n ≤ a) ⊎ (a + 4 * n ≤ s)
      → copy_words d n s a m x
        ≡ (if inside a (4 * n) x then d.program (m x) (m (s + (x - a))) else m x)
  unfolding copy_words
  copy_words_at zero m s a x h = ground arith
  copy_words_at (suc n) m s a x h =
      copy_words_at n (flash_program_word d m a (read_word m s)) (s + 4) (a + 4) x (omega arith)
      ∙ ground (arith, program_word_at m s a x, program_word_at m s a (s + 4 + (x - (a + 4))))
