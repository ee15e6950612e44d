-- ===== src/Stepper/Feeds.antt =====
-- Between two events of the interrupt `st_prep_buffer` leaves alone what the interrupt executes.
use cpcbm.Base.{ℕ, ◌≡◌, ◌≢◌, refl, sym, ap, ◌∙◌, some, List, [], ◌∷◌, ◌++◌, inl}
use cpcbm.Base.Real.{Real}
use cpcbm.Ring.Count.{next}
use cpcbm.Ring.Contents.{contents, contents-pop, contents_empty}
use cpcbm.Stepper.{Stepper, Segment, segment_at, segment_buffer_size, zero_segment}
use cpcbm.Stepper.Prepare.{Preparation}
use cpcbm.Stepper.Run.{IsFed}
use cpcbm.Stepper.Kept.{View, IsFilling, Kept, waiting}
use cpcbm.Stepper.Filled.{view}
use cpcbm.Stepper.Fill.{Filling, ready, endless, out_of_rounds, st_prep_buffer}
use cpcbm.Stepper.Returns.{Fills, st_prep_buffer-Fills}

abbrev pub oldest : List Segment → Segment
oldest [] = zero_segment
oldest (g ∷ gs) = g

-- Some segment waits.
abbrev pub IsWaiting : Stepper → Type 0
IsWaiting s = s.segment_buffer_head ≢ s.segment_buffer_tail

abbrev pub behind : Stepper → List Segment
behind s =
    contents segment_buffer_size zero_segment s.segment_buffer s.segment_buffer_head
      (next segment_buffer_size s.segment_buffer_tail)

pub waiting_is :
    (v : View)
    → IsFilling v
    → IsWaiting v.stepper
    → waiting v.stepper ≡ segment_at v.stepper v.stepper.segment_buffer_tail ∷ behind v.stepper
waiting_is v h n =
    contents-pop segment_buffer_size zero_segment v.stepper.segment_buffer
      v.stepper.segment_buffer_head v.stepper.segment_buffer_tail h.head_in h.tail_in n

none_waiting : (s : Stepper) → s.segment_buffer_head ≡ s.segment_buffer_tail → waiting s ≡ []
none_waiting s e =
    ap (λ n. contents segment_buffer_size zero_segment s.segment_buffer n s.segment_buffer_tail) e
    ∙ contents_empty segment_buffer_size zero_segment s.segment_buffer s.segment_buffer_tail

-- The oldest segment stays where it is.
module _ (v w : View) (h : IsFilling v) (g : IsFilling w) (k : Kept v.stepper w.stepper)
    (n : IsWaiting v.stepper) where
  pub tail_same : w.stepper.segment_buffer_tail ≡ v.stepper.segment_buffer_tail
  tail_same = ap (λ s. s.segment_buffer_tail) k.rest_same

  extended :
      waiting w.stepper
      ≡ (segment_at v.stepper v.stepper.segment_buffer_tail ∷ behind v.stepper) ++ k.more
  extended = k.extends ∙ ap (λ gs. gs ++ k.more) (waiting_is v h n)

  pub still-IsWaiting : IsWaiting w.stepper
  still-IsWaiting e = absurd (cc (none_waiting w.stepper e, extended))

  oldest_stays :
      segment_at w.stepper v.stepper.segment_buffer_tail
      ≡ segment_at v.stepper v.stepper.segment_buffer_tail
  oldest_stays =
      ap (segment_at w.stepper) (sym tail_same)
      ∙ ap oldest (sym (waiting_is w g still-IsWaiting))
      ∙ ap oldest extended

  Kept-IsFed :
      ((i : ℕ) → v.stepper.exec_segment ≡ some i → i ≡ v.stepper.segment_buffer_tail)
      → IsFed
          ((segment_at v.stepper v.stepper.segment_buffer_tail).st_block_index)
          v.stepper
          w.stepper
  Kept-IsFed executes = record {
    ready = ap (λ s. s.busy) k.rest_same;
    counter_same = ap (λ s. s.counter) k.rest_same;
    position_same = ap (λ s. s.position) k.rest_same;
    steps_same = ap (λ s. s.steps) k.rest_same;
    segment_same = ap (λ s. s.exec_segment) k.rest_same;
    index_same = ap (λ s. s.exec_block_index) k.rest_same;
    exec_same = ap (λ s. s.exec_block) k.rest_same;
    block_same =
        k.blocks_same ((segment_at v.stepper v.stepper.segment_buffer_tail).st_block_index)
          (rw (waiting_is v h n) (inl refl));
    level_same = λ i e.
        (let there = executes i e in
          ap (λ n. (segment_at w.stepper n).amass_level) there
          ∙ ap (λ (x : Segment). x.amass_level) oldest_stays
          ∙ ap (λ n. (segment_at v.stepper n).amass_level) (sym there));
  }

module _ (real : Real) where
  -- The filling leaves block `j` and the segment that is executed alone.
  abbrev pub Feeds : ℕ → Stepper → Filling real → Type 0
  Feeds j s (ready t) = IsFed j s t.stepper
  Feeds j s endless = Unit
  Feeds j s out_of_rounds = ⊥

  Fills-Feeds :
      (s : Preparation real) (o : Filling real)
      → IsFilling (view real s)
      → IsWaiting s.stepper
      → ((i : ℕ) → s.stepper.exec_segment ≡ some i → i ≡ s.stepper.segment_buffer_tail)
      → Fills real (view real s) o
      → Feeds ((segment_at s.stepper s.stepper.segment_buffer_tail).st_block_index) s.stepper o
  Fills-Feeds s (ready t) h n x (f, k) = Kept-IsFed (view real s) (view real t) h f k n x
  Fills-Feeds s endless h n x f = tt
  Fills-Feeds s out_of_rounds h n x f = f

  -- The stepper's rings are valid, a segment waits, and the interrupt executes no other segment than
  -- the oldest one. Then `st_prep_buffer` is one of the fillings that the sequences of events allow: unless
  -- its fuel runs out, it leaves alone the segment that is executed, the data of its block, and all
  -- else that the interrupt uses to trace it.
  pub st_prep_buffer-Feeds :
      (fuel : ℕ) (s : Preparation real)
      → IsFilling (view real s)
      → IsWaiting s.stepper
      → ((i : ℕ) → s.stepper.exec_segment ≡ some i → i ≡ s.stepper.segment_buffer_tail)
      → Feeds
          ((segment_at s.stepper s.stepper.segment_buffer_tail).st_block_index)
          s.stepper
          (st_prep_buffer real fuel s)
  st_prep_buffer-Feeds fuel s h n x =
      Fills-Feeds s (st_prep_buffer real fuel s) h n x (st_prep_buffer-Fills real fuel s h)
