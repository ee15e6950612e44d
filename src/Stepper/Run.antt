-- ===== src/Stepper/Run.antt =====
-- A block, from its first event to its last: the interrupt, and what the main program does between.
use cpcbm.Base.{ℕ, zero, suc, ◌+◌, ◌≡◌, ◌≢◌, ◌≤◌, false, Option, none, some}
use cpcbm.Base.Int.{ℤ}
use cpcbm.Base.Real.{Vec}
use cpcbm.Probe.{Readings}
use cpcbm.Stepper.{StBlock, Segment, Stepper, st_block_at, segment_at, main_timer_isr}

-- The units of work of an event at a level of smoothing.
abbrev pub unit : ℕ → ℕ
unit zero = 8
unit (suc zero) = 4
unit (suc (suc zero)) = 2
unit (suc (suc (suc n))) = 1

-- The segment of the next event.
abbrev pub segment_in : Option ℕ → Stepper → Segment
segment_in none s = segment_at s s.segment_buffer_tail
segment_in (some i) s = segment_at s i

abbrev pub next_segment : Stepper → Segment
next_segment s = segment_in s.exec_segment s

-- The next event is one of block `j`.
pub record GoesOn (j : ℕ) (s : Stepper) : Type 0 where
  pub waiting : s.exec_segment ≡ none → s.segment_buffer_head ≢ s.segment_buffer_tail
  pub of_block : (next_segment s).st_block_index ≡ j
  pub level : (next_segment s).amass_level ≤ 3

-- The next event is the first one of block `j`, with the data `b`.
pub record Begins (b : StBlock) (j : ℕ) (s : Stepper) : Type 0 where
  pub ready : s.busy ≡ false
  pub between : s.exec_segment ≡ none
  pub other : s.exec_block_index ≢ j
  pub block_is : st_block_at s j ≡ b
  pub goes_on : GoesOn j s

-- The main program leaves what the interrupt uses of block `j`; all else may change.
pub record IsFed (j : ℕ) (s t : Stepper) : Type 0 where
  pub ready : t.busy ≡ s.busy
  pub counter_same : t.counter ≡ s.counter
  pub position_same : t.position ≡ s.position
  pub steps_same : t.steps ≡ s.steps
  pub segment_same : t.exec_segment ≡ s.exec_segment
  pub index_same : t.exec_block_index ≡ s.exec_block_index
  pub exec_same : t.exec_block ≡ s.exec_block
  pub block_same : st_block_at t j ≡ st_block_at s j
  pub level_same :
      (i : ℕ)
      → s.exec_segment ≡ some i
      → (segment_at t i).amass_level ≡ (segment_at s i).amass_level

-- The states that are reached in a block, with the work done. The positions before it are `z`.
pub data Run (b : StBlock) (j : ℕ) (z : Vec ℤ) : ℕ → Stepper → Type 0 where
  begin :
      {w : ℕ} {t : Stepper} (s : Stepper) (pins : Readings)
      → Begins b j s
      → s.position ≡ z
      → w ≡ unit ((next_segment s).amass_level)
      → t ≡ main_timer_isr pins s
      → Run b j z w t
  event :
      {v w : ℕ} {s t : Stepper} (pins : Readings)
      → Run b j z v s
      → GoesOn j s
      → w ≡ v + unit ((next_segment s).amass_level)
      → t ≡ main_timer_isr pins s
      → Run b j z w t
  feed : {w : ℕ} {s t : Stepper} → Run b j z w s → IsFed j s t → Run b j z w t
