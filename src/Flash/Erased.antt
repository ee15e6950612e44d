-- ===== src/Flash/Erased.antt =====
-- Records over erased memory, and records that are the same bytes at two addresses.
use cpcbm.Base.{
  ℕ, zero, suc, ◌+◌, ◌≡◌, ◌<◌, ◌≤◌, refl, ap, ◌∙◌, false, List, [], ◌∷◌, length, arith,
}
use cpcbm.Flash.Record.{Fits, sets_bit_erased, checksum_step_lt, Fits-put}
use cpcbm.Flash.{Memory, Device, sets_bit, checksum_step, read_loop, flash_put_char, write_loop}

-- The elements are bytes.
abbrev pub AreBytes : List ℕ → Type 0
AreBytes [] = Unit
AreBytes (x ∷ xs) = (x < 256) × AreBytes xs

-- Every record fits over erased memory.
pub erased-Fits :
    (xs : List ℕ) (m : Memory) (a c : ℕ)
    → AreBytes xs
    → c < 256
    → ((x : ℕ) → a ≤ x → x ≤ a + length xs → m x ≡ 0xff)
    → Fits m a xs c
erased-Fits [] m a c b l e = rw (e a (omega arith) (omega arith)) (sets_bit_erased c l)
erased-Fits (x ∷ xs) m a c (bx, b) l e = (
  rw (e a (omega arith) (omega arith)) (sets_bit_erased x bx),
  erased-Fits xs m (a + 1) (checksum_step c x) b (checksum_step_lt c x)
      (λ y ly hy. e y (omega arith) (omega arith)),
)

pub read_loop_same :
    (n : ℕ) (m1 m2 : Memory) (a b c : ℕ)
    → ((i : ℕ) → i ≤ n → m1 (a + i) ≡ m2 (b + i))
    → read_loop m1 a n c ≡ read_loop m2 b n c
unfolding read_loop
read_loop_same zero m1 m2 a b c e =
    let here : m1 a ≡ m2 b = ap m1 (omega arith) ∙ e 0 (omega arith) ∙ ap m2 (omega arith) in
    rw here refl
read_loop_same (suc n) m1 m2 a b c e =
    let here : m1 a ≡ m2 b = ap m1 (omega arith) ∙ e 0 (omega arith) ∙ ap m2 (omega arith) in
    rw
      (
        here,
        read_loop_same n m1 m2 (a + 1) (b + 1) (checksum_step c (m2 b))
            (λ i l. ap m1 (omega arith) ∙ e (suc i) (omega arith) ∙ ap m2 (omega arith)),
      )
      refl

module _ (d : Device) where
  put_bytes :
      (m : Memory) (a v x : ℕ)
      → v < 256
      → sets_bit (m a) v ≡ false
      → m x < 256
      → flash_put_char d m a v x < 256
  unfolding flash_put_char
  put_bytes m a v x l f h = ground (arith, d.program_lem (m a) v f)

  -- What is written where it fits are bytes.
  pub write_loop_bytes :
      (xs : List ℕ) (m : Memory) (a c x : ℕ)
      → AreBytes xs
      → c < 256
      → Fits m a xs c
      → m x < 256
      → write_loop d m a xs c x < 256
  unfolding write_loop
  write_loop_bytes [] m a c x b l f h = put_bytes m a c x l f h
  write_loop_bytes (y ∷ xs) m a c x (by, b) l (fy, f) h =
      write_loop_bytes xs (flash_put_char d m a y) (a + 1) (checksum_step c y) x b
        (checksum_step_lt c y) (Fits-put d xs m a y (a + 1) (checksum_step c y) (omega arith) f)
        (put_bytes m a y x by fy h)
