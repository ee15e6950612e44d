-- ===== src/Planner/Partial.antt =====
-- The recalculation keeps the mark that the block at the tail has been begun.
use cpcbm.Base.{
  ℕ, zero, suc, ◌≡◌, refl, ap, ◌∙◌, arith, Bool, true, false, Option, none, some, if◌then◌else◌,
}
use cpcbm.Base.Real.{Real}
use cpcbm.Planner.{Planner, plan_prev_block_index, plan_next_block_index, block_buffer_size}
use cpcbm.Planner.Recalculate.{
  Plan, update_block, st_update_plan_block_parameters, plan_last, plan_entry, update_if_tail,
  reverse_pass, reach_entry, mark_maximum, forward_pass, reverse_from, forward_from,
  planner_recalculate, plan_cycle_reinitialize,
}

abbrev pub is_begun : Option ℕ → Bool → Bool
is_begun none flag = flag
is_begun (some i) flag = true

module _ (real : Real) where
  abbrev pub begun : Plan real → Bool
  begun p = is_begun p.prep.pl_block p.prep.flag_partial_block

  pub record IsBegun (p : Plan real) : Type 0 where
    pub mark : begun p ≡ true

  pub data StaysBegun : Option (Plan real) → Type 0 where
    stuck : StaysBegun none
    stays : {p : Plan real} → IsBegun p → StaysBegun (some p)

  if-IsBegun : (c : Bool) {a b : Plan real} → IsBegun a → IsBegun b → IsBegun (if c then a else b)
  if-IsBegun true x y = x
  if-IsBegun false x y = y

  if-StaysBegun :
      (c : Bool) {a b : Option (Plan real)}
      → StaysBegun a
      → StaysBegun b
      → StaysBegun (if c then a else b)
  if-StaysBegun true x y = x
  if-StaysBegun false x y = y

  -- Only the planner's own variables change.
  replanned : {p : Plan real} (q : Planner real) → IsBegun p → IsBegun (record p { planner = q })
  replanned q h = record { mark = h.mark }

  update_block-IsBegun :
      (o : Option ℕ) {p : Plan real} → IsBegun p → IsBegun (update_block real o p)
  update_block-IsBegun none h = h
  update_block-IsBegun (some i) h = record { mark = refl }

  st_update-IsBegun : {p : Plan real} → IsBegun p → IsBegun (st_update_plan_block_parameters real p)
  unfolding st_update_plan_block_parameters
  st_update-IsBegun {p} h = update_block-IsBegun p.prep.pl_block h

  update_if_tail-IsBegun : (i : ℕ) {p : Plan real} → IsBegun p → IsBegun (update_if_tail real i p)
  update_if_tail-IsBegun i h = if-IsBegun _ (st_update-IsBegun h) h

  plan_last-IsBegun : (i : ℕ) {p : Plan real} → IsBegun p → IsBegun (plan_last real i p)
  unfolding plan_last
  plan_last-IsBegun i h = replanned _ h

  same-IsBegun : {p q : Plan real} → q.prep ≡ p.prep → IsBegun p → IsBegun q
  same-IsBegun e h = record { mark = ap (λ x. is_begun x.pl_block x.flag_partial_block) e ∙ h.mark }

  plan_entry-IsBegun : (i j : ℕ) {p : Plan real} → IsBegun p → IsBegun (plan_entry real i j p)
  unfolding plan_entry
  plan_entry-IsBegun i j {p} h = same-IsBegun (ground arith) h

  reach_entry-IsBegun : (i j : ℕ) {p : Plan real} → IsBegun p → IsBegun (reach_entry real i j p)
  unfolding reach_entry
  reach_entry-IsBegun i j {p} h = same-IsBegun (ground arith) h

  mark_maximum-IsBegun : (j : ℕ) {p : Plan real} → IsBegun p → IsBegun (mark_maximum real j p)
  unfolding mark_maximum
  mark_maximum-IsBegun j {p} h = same-IsBegun (ground arith) h

  reverse_pass-StaysBegun :
      (fuel i j : ℕ) {p : Plan real} → IsBegun p → StaysBegun (reverse_pass real fuel i j p)
  unfolding reverse_pass
  reverse_pass-StaysBegun zero i j h = stuck
  reverse_pass-StaysBegun (suc fuel) i j h = if-StaysBegun _ (stays h) (
      reverse_pass-StaysBegun fuel (plan_prev_block_index i) i
        (plan_entry-IsBegun i j (update_if_tail-IsBegun (plan_prev_block_index i) h)))

  forward_pass-StaysBegun :
      (fuel i j : ℕ) {p : Plan real} → IsBegun p → StaysBegun (forward_pass real fuel i j p)
  unfolding forward_pass
  forward_pass-StaysBegun zero i j h = stuck
  forward_pass-StaysBegun (suc fuel) i j h = if-StaysBegun _ (stays h) (
      forward_pass-StaysBegun fuel (plan_next_block_index i) i
        (mark_maximum-IsBegun i (reach_entry-IsBegun j i h)))

  reverse_from-StaysBegun :
      (last : ℕ) {p : Plan real} → IsBegun p → StaysBegun (reverse_from real last p)
  unfolding reverse_from
  reverse_from-StaysBegun last h =
      if-StaysBegun _ (stays (update_if_tail-IsBegun (plan_prev_block_index last) h))
        (reverse_pass-StaysBegun block_buffer_size (plan_prev_block_index last) last h)

  abbrev then_forward : Option (Plan real) → Option (Plan real)
  then_forward o = elim o [ none ↦ none | some r ↦ forward_from real r ]

  then_forward-StaysBegun : {o : Option (Plan real)} → StaysBegun o → StaysBegun (then_forward o)
  then_forward-StaysBegun stuck = stuck
  then_forward-StaysBegun (stays {p = p} h) =
      forward_pass-StaysBegun block_buffer_size (plan_next_block_index p.planner.planned)
        p.planner.planned h

  planner_recalculate-StaysBegun :
      {p : Plan real} → IsBegun p → StaysBegun (planner_recalculate real p)
  unfolding planner_recalculate
  planner_recalculate-StaysBegun {p} h =
      let last = plan_prev_block_index p.planner.head in
      if-StaysBegun _ (stays h)
        (then_forward-StaysBegun (reverse_from-StaysBegun last (plan_last-IsBegun last h)))

  pub plan_cycle_reinitialize-StaysBegun :
      {p : Plan real} → IsBegun p → StaysBegun (plan_cycle_reinitialize real p)
  unfolding plan_cycle_reinitialize
  plan_cycle_reinitialize-StaysBegun h =
      planner_recalculate-StaysBegun (replanned _ (st_update-IsBegun h))
