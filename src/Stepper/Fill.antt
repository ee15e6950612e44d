-- ===== src/Stepper/Fill.antt =====
-- common_src/stepper.c: `st_prep_buffer` as a whole, with no interrupt in the middle.
use cpcbm.Base.{ℕ, zero, suc, ◌&&◌, Option, none, some, ◌==◌, if◌then◌else◌}
use cpcbm.Base.Real.{Real}
use cpcbm.Stepper.{segment_buffer_size}
use cpcbm.Stepper.Prepare.{
  Preparation, load_block, is_suspended, Outcome, continue, bail, finish_segment,
}
use cpcbm.Stepper.Ramps.{compute_profile, ramp_loop, first_ramp, minimum_distance}

module _ (real : Real) where
  open real use {decimal, eq}

  -- How the filling ends: `ready` where the source returns, `endless` where the fuel of the loop over
  -- the ramps or of the planner does not suffice, `out_of_rounds` where the number of rounds does not.
  pub data Filling : Type 0 where
    ready : Preparation real → Filling
    endless out_of_rounds : Filling

  -- The block to work on, with its profile.
  abbrev pub with_profile : Option (Preparation real) → Option (Preparation real)
  with_profile none = none
  with_profile (some s) = some (compute_profile real s.plan.planner.tail s)

  abbrev pub take_block : Option ℕ → Preparation real → Option (Preparation real)
  take_block (some i) s = some s
  take_block none s = with_profile (load_block real s)

  -- The segment of a round, for the block with index `i`.
  unfoldable pub make_segment : ℕ → ℕ → Preparation real → Option (Outcome real)
  make_segment fuel i s =
      elim (ramp_loop real fuel i (minimum_distance real i s) (first_ramp real i s)) [
        | none ↦ none
        | some r ↦ some (finish_segment real i r.mm_remaining r.dt r.preparation)
      ]

  abbrev pub make_segment_of : ℕ → Option ℕ → Preparation real → Option (Outcome real)
  make_segment_of fuel none s = none
  make_segment_of fuel (some i) s = make_segment fuel i s

  -- A round, whose result is `none` where there is no block.
  unfoldable pub prep_round : ℕ → Preparation real → Option (Option (Outcome real))
  prep_round fuel s = elim (take_block s.plan.prep.pl_block s) [
    | none ↦ none
    | some t ↦ some (make_segment_of fuel t.plan.prep.pl_block t)
  ]

  -- The loop, with a bound on its rounds.
  unfoldable pub fill : ℕ → ℕ → Preparation real → Filling
  unfolding prep_round make_segment
  fill zero fuel s =
      if s.stepper.segment_buffer_tail == s.segment_next_head then ready s else out_of_rounds
  fill (suc rounds) fuel s =
      if s.stepper.segment_buffer_tail == s.segment_next_head
      then ready s
      else elim (prep_round fuel s) [
        | none ↦ ready s
        | some none ↦ endless
        | some (some (bail none)) ↦ endless
        | some (some (bail (some t))) ↦ ready t
        | some (some (continue t)) ↦ fill rounds fuel t
      ]

  unfoldable pub st_prep_buffer : ℕ → Preparation real → Filling
  unfolding fill
  st_prep_buffer fuel s =
      if is_suspended s.stepper.state && eq s.plan.prep.current_speed (decimal 0 0)
      then ready s
      else fill segment_buffer_size fuel s
