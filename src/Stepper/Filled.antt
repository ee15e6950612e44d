-- ===== src/Stepper/Filled.antt =====
-- `st_prep_buffer` ends, and keeps what the interrupt is going to use.
use cpcbm.Base.{
  ℕ, zero, suc, ◌+◌, ◌≡◌, ◌≤◌, refl, sym, ◌∙◌, arith, Bool, true, false, ◌&&◌, if◌then◌else◌,
  Option, none, some, length, ◌==◌,
}
use cpcbm.Base.Real.{Real}
use cpcbm.Planner.Recalculate.{Plan}
use cpcbm.Planner.Partial.{
  is_begun, begun, StaysBegun, stuck, stays, plan_cycle_reinitialize-StaysBegun,
}
use cpcbm.Ring.Count.{next}
use cpcbm.Stepper.{Segment, segment_at}
use cpcbm.Stepper.Prepare.{
  steps_at, n_step_to, segment_to, keep_remainder, is_suspended, Ramp, accel, cruise, decel,
  Preparation, Outcome, continue, bail, with_plan, push_segment, stopped, stop_here, after_segment,
  finish_segment, touch_segment, time_segment,
}
use cpcbm.Stepper.Ramps.{compute_profile, Ramping, ramp_by, take_time, ramp_once, ramp_loop}
use cpcbm.Stepper.Kept.{
  View, IsFilling, Kept, waiting, HasRoom, pushed-IsFilling, touched_view, touched-IsFilling,
  marked-IsFilling,
}

module _ (real : Real) where
  open real use {R, decimal, add, sub, mul, div, sqrt, ceil, lt, eq, of_nat}

  abbrev pub view : Preparation real → View
  view s = record {
    stepper = s.stepper;
    next_head = s.segment_next_head;
    index = s.st_block_index;
    is_begun = is_begun s.plan.prep.pl_block s.plan.prep.flag_partial_block;
  }

  pub view-compute_profile :
      (i : ℕ) (s : Preparation real) → view (compute_profile real i s) ≡ view s
  unfolding compute_profile
  view-compute_profile i s = ground arith

  view-ramp_by :
      (ramp : Ramp) (i : ℕ) (r : Ramping real)
      → view ((ramp_by real ramp i r).preparation) ≡ view r.preparation
  view-ramp_by accel i r = ground arith
  view-ramp_by cruise i r = ground arith
  view-ramp_by decel i r = ground arith

  view-take_time :
      (minimum_mm : R) (r : Ramping real)
      → view (((take_time real minimum_mm r).1).preparation) ≡ view r.preparation
  view-take_time m r = ground arith

  pub data KeepsView (v : View) : Option (Ramping real) → Type 0 where
    no_end : KeepsView v none
    ended : {r : Ramping real} → view r.preparation ≡ v → KeepsView v (some r)

  if-KeepsView :
      {v : View} (c : Bool) {a b : Option (Ramping real)}
      → KeepsView v a
      → KeepsView v b
      → KeepsView v (if c then a else b)
  if-KeepsView true x y = x
  if-KeepsView false x y = y

  view-ramp_once :
      (i : ℕ) (minimum_mm : R) (r : Ramping real)
      → view (((ramp_once real i minimum_mm r).1).preparation) ≡ view r.preparation
  unfolding ramp_once
  view-ramp_once i m r =
      view-take_time m (ramp_by real r.preparation.ramp_type i r)
      ∙ view-ramp_by r.preparation.ramp_type i r

  pub ramp_loop-KeepsView :
      (fuel i : ℕ) (minimum_mm : R) (v : View) (r : Ramping real)
      → view r.preparation ≡ v
      → KeepsView v (ramp_loop real fuel i minimum_mm r)
  unfolding ramp_loop
  ramp_loop-KeepsView zero i m v r e = no_end
  ramp_loop-KeepsView (suc fuel) i m v r e =
      let after = (ramp_once real i m r).1 in
      let same : view after.preparation ≡ v = view-ramp_once i m r ∙ e in
      if-KeepsView _ (ramp_loop-KeepsView fuel i m v after same) (ended same)

  -- The states that a round may end in, where `v` was the state before: `n` segments more at least.
  abbrev pub Extends : View → ℕ → View → Type 0
  Extends v n w =
      IsFilling w
      × Kept v.stepper w.stepper
      × (length (waiting v.stepper) + n ≤ length (waiting w.stepper))

  -- The same, whether or not the planner's block counts as begun.
  abbrev ExtendsAnyhow : View → ℕ → View → Type 0
  ExtendsAnyhow v n w = (b : Bool) → Extends v n (record w { is_begun = b })

  abbrev pub StaysOn : View → Option (Preparation real) → Type 0
  StaysOn v none = Unit
  StaysOn v (some t) = Extends v 0 (view t)

  abbrev pub Ends : View → Outcome real → Type 0
  Ends v (continue t) = Extends v 1 (view t)
  Ends v (bail o) = StaysOn v o

  if-Ends :
      (v : View) (c : Bool) (a b : Outcome real) → Ends v a → Ends v b → Ends v (if c then a else b)
  if-Ends v true a b x y = x
  if-Ends v false a b x y = y

  with_plan-StaysOn :
      (v : View) (t : Preparation real) (o : Option (Plan real))
      → ExtendsAnyhow v 1 (view t)
      → StaysOn v (with_plan real t o)
  with_plan-StaysOn v t none h = tt
  with_plan-StaysOn v t (some p) h =
      let (fills, kept, longer) = h (begun real p) in (fills, kept, omega (arith, longer))

  stop_here-Ends :
      (v : View) (i : ℕ) (steps : R) (t : Preparation real)
      → ExtendsAnyhow v 1 (view t)
      → StaysOn v (stop_here real i steps t)
  unfolding stop_here
  stop_here-Ends v i steps t h = with_plan-StaysOn v (stopped real i steps t) _ h

  after_segment-Ends :
      (v : View) (i : ℕ) (mm steps : R) (t : Preparation real)
      → ExtendsAnyhow v 1 (view t)
      → Ends v (after_segment real i mm steps t)
  unfolding after_segment
  after_segment-Ends v i mm steps t h =
      if-Ends v (lt t.mm_complete mm) _ _ (h ((view t).is_begun)) (
        if-Ends v (lt (decimal 0 0) mm) _ _ (stop_here-Ends v i (ceil steps) t h)
          (h t.plan.prep.flag_partial_block))

  push_segment-Extends :
      (g : Segment) (s : Preparation real)
      → IsFilling (view s)
      → HasRoom (view s)
      → g.st_block_index ≡ s.st_block_index
      → ExtendsAnyhow (view s) 1 (view (push_segment real g s))
  unfolding push_segment next
  push_segment-Extends g s h room e b =
      let (fills, kept, longer) = pushed-IsFilling g b (view s) h room e in
      (fills, kept, omega (arith, longer))

  -- A hold that leaves less than a step: no segment, and the block counts as begun.
  held_plan-StaysOn :
      (i : ℕ) (steps : R) (s : Preparation real) {o : Option (Plan real)}
      → IsFilling (view s)
      → (view s).is_begun ≡ true
      → StaysBegun real o
      → StaysOn (view s) (with_plan real (stopped real i steps (touch_segment real s)) o)
  held_plan-StaysOn i steps s h e stuck = tt
  held_plan-StaysOn i steps s h e (stays {p = p} b) =
      let touched = record (segment_at s.stepper s.stepper.segment_buffer_head) {
        n_step = 0;
        st_block_index = s.st_block_index;
      } in
      let (fills, kept, same) = touched-IsFilling touched (view s) h in
      (
        marked-IsFilling (touched_view touched (view s)) (begun real p) (b.mark ∙ sym e) fills,
        kept,
        omega (arith, same),
      )

  held-StaysOn :
      (i : ℕ) (steps : R) (s : Preparation real)
      → IsFilling (view s)
      → (view s).is_begun ≡ true
      → StaysOn (view s) (stop_here real i steps (touch_segment real s))
  unfolding stop_here
  held-StaysOn i steps s h e =
      held_plan-StaysOn i steps s h e
        (plan_cycle_reinitialize-StaysBegun real (record { mark = e }))

  pub finish_segment-Ends :
      (i : ℕ) (mm dt : R) (s : Preparation real)
      → IsFilling (view s)
      → HasRoom (view s)
      → (view s).is_begun ≡ true
      → Ends (view s) (finish_segment real i mm dt s)
  unfolding finish_segment segment_to time_segment
  finish_segment-Ends i mm dt s h room e =
      if-Ends (view s) (n_step_to real mm s == 0 && is_suspended s.stepper.state)
        (bail (stop_here real i (ceil (steps_at real mm s)) (touch_segment real s))) _
        (held-StaysOn i (ceil (steps_at real mm s)) s h e)
        (after_segment-Ends (view s) i mm (steps_at real mm s)
          (push_segment real (segment_to real mm dt s) (keep_remainder real mm dt s))
          (push_segment-Extends (segment_to real mm dt s) (keep_remainder real mm dt s) h room
            refl))
