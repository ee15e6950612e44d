-- ===== src/Planner/Queue.antt =====
-- The planner's ring against a bounded queue of blocks.
use cpcbm.Base.{
  ℕ, ◌+◌, ◌<◌, ◌≤◌, ◌≡◌, ◌≢◌, arith, false, List, [], ◌∷◌, ◌++◌, Option, none, some, length,
  length-set, ◌==◌, ==→eq, Bool-cases, inl, inr,
}
use cpcbm.Base.Real.{Real}
use cpcbm.Ring.Count.{next, used, used-lt, used-next_head, next-lt}
use cpcbm.Ring.Contents.{contents, length-contents, contents-push, contents-pop, contents_empty}
use cpcbm.Planner.{
  block_buffer_size, plan_next_block_index, PlanBlock, Planner, zero_block, plan_reset,
  plan_discard_current_block, plan_get_current_block, plan_check_full_buffer,
  plan_get_block_buffer_count, push_block,
}

-- The index does not wrap as a byte before it wraps round the ring.
plan_next_block_index_lem :
    (i : ℕ) → i < block_buffer_size → plan_next_block_index i ≡ next block_buffer_size i
unfolding plan_next_block_index next
plan_next_block_index_lem i h = ground arith

module _ (real : Real) where
  -- The blocks that wait, the one to process now first.
  abbrev pub blocks : Planner real → List (PlanBlock real)
  blocks p = contents block_buffer_size (zero_block real) p.block_buffer p.head p.tail

  -- The planned pointer is between the tail and the head.
  pub record IsRing (p : Planner real) : Type 0 where
    pub storage : length p.block_buffer ≡ block_buffer_size
    pub tail_in : p.tail < block_buffer_size
    pub head_in : p.head < block_buffer_size
    pub planned_in : p.planned < block_buffer_size
    pub next_is : p.next_head ≡ next block_buffer_size p.head
    pub between : used block_buffer_size p.planned p.tail ≤ used block_buffer_size p.head p.tail

  abbrev pub first_block : List (PlanBlock real) → Option (PlanBlock real)
  first_block [] = none
  first_block (b ∷ q) = some b

  abbrev pub other_blocks : List (PlanBlock real) → List (PlanBlock real)
  other_blocks [] = []
  other_blocks (b ∷ q) = q

  discard-IsRing : {p : Planner real} → IsRing p → IsRing (plan_discard_current_block real p)
  unfolding plan_discard_current_block plan_next_block_index next used
  discard-IsRing {p} v = ground (arith, v.next_is, v.between)

  push-IsRing :
      {p : Planner real} (block : PlanBlock real)
      → IsRing p
      → plan_check_full_buffer real p ≡ false
      → IsRing (push_block real p block)
  unfolding push_block plan_check_full_buffer plan_next_block_index next used
  push-IsRing {p} block v room =
      ground (arith, v.next_is, v.between, v.storage, length-set p.block_buffer p.head block)

  -- The stepper driver's side: it is given the first block that waits, if any; discarding it leaves
  -- the other blocks and a valid ring, with the planned pointer between its tail and its head.
  pub plan_discard_refines :
      {p : Planner real}
      → IsRing p
      → (plan_get_current_block real p ≡ first_block (blocks p))
        × (blocks (plan_discard_current_block real p) ≡ other_blocks (blocks p))
        × IsRing (plan_discard_current_block real p)
  unfolding plan_discard_current_block plan_get_current_block
  plan_discard_refines {p} v = elim (Bool-cases (p.head == p.tail)) [
    | inl e ↦ (
      ground (
        arith,
        ==→eq p.head p.tail e,
        contents_empty block_buffer_size (zero_block real) p.block_buffer p.tail,
      ),
      ground (
        arith,
        ==→eq p.head p.tail e,
        contents_empty block_buffer_size (zero_block real) p.block_buffer p.tail,
      ),
      discard-IsRing v,
    )
    | inr ne ↦ (
      ground (
        arith,
        contents-pop block_buffer_size (zero_block real) p.block_buffer p.head p.tail v.head_in
            v.tail_in (ground arith),
      ),
      ground (
        arith,
        plan_next_block_index_lem p.tail v.tail_in,
        contents-pop block_buffer_size (zero_block real) p.block_buffer p.head p.tail v.head_in
            v.tail_in (ground arith),
      ),
      discard-IsRing v,
    )
  ]

  -- The main program's side: while the check says that the buffer is not full, fewer than
  -- BLOCK_BUFFER_SIZE - 1 blocks wait, and a new block is put behind them; the ring stays valid.
  pub push_block_refines :
      {p : Planner real} (block : PlanBlock real)
      → IsRing p
      → plan_check_full_buffer real p ≡ false
      → (length (blocks p) + 1 < block_buffer_size)
        × (blocks (push_block real p block) ≡ blocks p ++ (block ∷ []))
        × IsRing (push_block real p block)
  unfolding push_block plan_check_full_buffer
  push_block_refines {p} block v room = (
    ground (
      arith,
      length-contents block_buffer_size (zero_block real) p.block_buffer p.head p.tail,
      used-next_head block_buffer_size p.head p.tail v.head_in v.tail_in free,
      used-lt block_buffer_size (next block_buffer_size p.head) p.tail
          (next-lt block_buffer_size p.head v.head_in) v.tail_in,
    ),
    rw v.next_is (
        contents-push block_buffer_size (zero_block real) p.block_buffer p.head p.tail block
          (omega (arith, v.storage)) v.head_in v.tail_in free),
    push-IsRing block v room,
  )
    where
      free : next block_buffer_size p.head ≢ p.tail
      free = ground (arith, v.next_is)

  -- The count is the number of blocks that wait.
  pub plan_get_block_buffer_count_lem :
      {p : Planner real} → IsRing p → plan_get_block_buffer_count real p ≡ length (blocks p)
  unfolding plan_get_block_buffer_count used
  plan_get_block_buffer_count_lem {p} v =
      ground
        (arith, length-contents block_buffer_size (zero_block real) p.block_buffer p.head p.tail)

  -- After a reset no block waits and the ring is valid.
  pub plan_reset-IsRing :
      {p : Planner real} → IsRing p → (blocks (plan_reset real p) ≡ []) × IsRing (plan_reset real p)
  unfolding plan_reset used next
  plan_reset-IsRing {p} v = (
    contents_empty block_buffer_size (zero_block real) p.block_buffer 0,
    ground (arith, v.storage),
  )
