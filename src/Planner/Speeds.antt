-- ===== src/Planner/Speeds.antt =====
-- The planner's ring as a speed profile, and a change of one block's entry speed.
use cpcbm.Base.{
  ℕ, suc, ◌+◌, ◌%◌, ◌≡◌, ◌≢◌, ◌<◌, ap, ◌∙◌, arith, some, inl, inr, Bool-cases, ◌==◌, if◌then◌else◌,
  ==→eq, length, length-set, get_or-set_self, get_or-set_ne,
}
use cpcbm.Base.Real.{Real}
use cpcbm.Planner.{block_buffer_size, plan_next_block_index, plan_prev_block_index, Planner}
use cpcbm.Planner.Profile.{Profile, Changed, Fits}
use cpcbm.Planner.Recalculate.{Plan, block_at, set_entry_speed, speed_change}

-- The index of the block at an offset from the tail.
abbrev pub index : ℕ → ℕ → ℕ
index tail o = (tail + o) % block_buffer_size

pub prev-index : (t o : ℕ) → plan_prev_block_index (index t (suc o)) ≡ index t o
unfolding plan_prev_block_index
prev-index t o = ground arith

pub next-index : (t o : ℕ) → plan_next_block_index (index t o) ≡ index t (suc o)
unfolding plan_next_block_index
next-index t o = ground arith

index_ne :
    (t o p : ℕ) → o < block_buffer_size → p < block_buffer_size → o ≢ p → index t o ≢ index t p
index_ne t o p l h ne e = omega (arith, e)

module _ (real : Real) where
  open real use {R, decimal, add, mul, lt, eq}

  -- The speeds of the blocks that wait, the one to process now first.
  abbrev pub profile : ℕ → Planner real → Profile real
  profile tail p = record {
    entry = λ o. (block_at real p (index tail o)).entry_speed_sqr;
    limit = λ o. (block_at real p (index tail o)).max_entry_speed_sqr;
    change = λ o. speed_change real (block_at real p (index tail o));
  }

  -- `n` blocks wait, and the planned pointer is at the one with offset `q`.
  pub record IsAt (p : Planner real) (tail q n : ℕ) : Type 0 where
    pub tail_is : p.tail ≡ tail
    pub storage : length p.block_buffer ≡ block_buffer_size
    pub size : n < block_buffer_size
    pub tail_in : tail < block_buffer_size
    pub head_is : p.head ≡ index tail n
    pub planned_is : p.planned ≡ index tail q
    pub planned_in : q < n

  block_after_set :
      (s : Plan real) {t q n : ℕ} (m : ℕ) (v : R) (o : ℕ)
      → IsAt s.planner t q n
      → m < n
      → o < n
      → block_at real ((set_entry_speed real (index t m) v s).planner) (index t o) ≡ (
          if o == m
          then record (block_at real s.planner (index t m)) { entry_speed_sqr = v }
          else block_at real s.planner (index t o))
  block_after_set s {t} m v o a l lo = elim (Bool-cases (o == m)) [
    | inl e ↦
        rw (e, ==→eq o m e)
          (get_or-set_self s.planner.block_buffer (index t m) _ _ (omega (arith, a.storage)))
    | inr e ↦ rw e (
        get_or-set_ne s.planner.block_buffer (index t m) (index t o) _ _
          (index_ne t m o (omega (arith, a.size)) (omega (arith, a.size)) (ground arith)))
  ]

  pub set_entry-Changed :
      (s : Plan real) {t q n : ℕ} (m : ℕ) (v : R)
      → IsAt s.planner t q n
      → m < n
      → Changed real
          (profile t s.planner)
          (profile t ((set_entry_speed real (index t m) v s).planner))
          n
          m
          v
  set_entry-Changed s {t} m v a l = record {
    entry_is = λ o lo. ground (arith, ap (λ b. b.entry_speed_sqr) (block_after_set s m v o a l lo));
    limit_same = λ o lo.
        ap (λ b. b.max_entry_speed_sqr) (block_after_set s m v o a l lo)
        ∙ ground (arith, ==→eq o m);
    change_same =
        λ o lo. ap (speed_change real) (block_after_set s m v o a l lo) ∙ ground (arith, ==→eq o m);
  }

  pub set_entry-IsAt :
      (s : Plan real) {t q n : ℕ} (i : ℕ) (v : R)
      → IsAt s.planner t q n
      → IsAt ((set_entry_speed real i v s).planner) t q n
  set_entry-IsAt s i v a = record {
    tail_is = a.tail_is;
    storage = length-set s.planner.block_buffer i _ ∙ a.storage;
    size = a.size;
    tail_in = a.tail_in;
    head_is = a.head_is;
    planned_is = a.planned_is;
    planned_in = a.planned_in;
  }

  -- What the stepper driver's speed may be, if it executes a block: the block is the first one, and
  -- the speed fits it.
  abbrev pub IsSlow : Plan real → ℕ → ℕ → Type 0
  IsSlow s t n =
      (i : ℕ)
      → s.prep.pl_block ≡ some i
      → (i ≡ t)
        × Fits real (profile t s.planner) n 0 (mul s.prep.current_speed s.prep.current_speed)
