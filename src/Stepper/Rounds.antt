-- ===== src/Stepper/Rounds.antt =====
-- A round of `st_prep_buffer`: taking a block, its profile, and a segment of it.
use cpcbm.Base.{
  ℕ, ◌≡◌, ◌≤◌, refl, sym, ap, subst, ◌∙◌, arith, Bool, true, false, if◌then◌else◌, Option, none,
  some, length,
}
use cpcbm.Base.Real.{Real}
use cpcbm.Ring.Count.{next}
use cpcbm.Planner.{PlanBlock, plan_get_current_block}
use cpcbm.Planner.Partial.{is_begun}
use cpcbm.Stepper.{StBlock}
use cpcbm.Stepper.Prepare.{
  Preparation, Outcome, continue, bail, load_new_block, load_block, current_block, scaled_block,
  point_at, finish_segment,
}
use cpcbm.Stepper.Ramps.{compute_profile, first_ramp, minimum_distance, Ramping}
use cpcbm.Stepper.Kept.{
  View, IsFilling, Kept, waiting, HasRoom, loaded_view, loaded-IsFilling, marked-IsFilling,
  self-Kept, chain-Kept,
}
use cpcbm.Stepper.Filled.{
  view, view-compute_profile, KeepsView, no_end, ended, ramp_loop-KeepsView, Ends,
  finish_segment-Ends,
}
use cpcbm.Stepper.Fill.{take_block, with_profile, make_segment, make_segment_of, prep_round}

module _ (real : Real) where
  -- What holds when a block has been taken, from the view `v` on.
  abbrev Taken : View → View → Type 0
  Taken v w =
      IsFilling w
      × Kept v.stepper w.stepper
      × HasRoom w
      × (length (waiting v.stepper) ≤ length (waiting w.stepper))

  record IsTaken (v : View) (t : Preparation real) : Type 0 where
    pub block : ℕ
    pub block_is : t.plan.prep.pl_block ≡ some block
    pub taken : Taken v (view real t)

  data Takes (v : View) : Option (Preparation real) → Type 0 where
    no_block : Takes v none
    takes : {t : Preparation real} → IsTaken v t → Takes v (some t)

  data_of : Preparation real → StBlock
  data_of s =
      let block = current_block real s.plan.planner.tail s in
      scaled_block block.direction_bits block.steps block.step_event_count

  view-load_new_block :
      (s : Preparation real)
      → view real (
          load_new_block real s.plan.planner.tail
            (point_at real (some s.plan.planner.tail) false s))
        ≡ loaded_view (data_of s) (view real s)
  unfolding load_new_block next data_of
  view-load_new_block s = ground arith

  pl_block-load_new_block :
      (i : ℕ) (s : Preparation real)
      → (load_new_block real i s).plan.prep.pl_block ≡ s.plan.prep.pl_block
  unfolding load_new_block
  pl_block-load_new_block i s = ground arith

  pl_block-compute_profile :
      (i : ℕ) (s : Preparation real)
      → (compute_profile real i s).plan.prep.pl_block ≡ s.plan.prep.pl_block
  unfolding compute_profile
  pl_block-compute_profile i s = ground arith

  abbrev load_of : Option (PlanBlock real) → Bool → Preparation real → Option (Preparation real)
  load_of o flag s =
      let tail = s.plan.planner.tail in
      elim o [
        | none ↦ none
        | some block ↦
            if flag
            then some (point_at real (some tail) false s)
            else some (load_new_block real tail (point_at real (some tail) false s))
      ]

  load_of-Takes :
      (o : Option (PlanBlock real)) (flag : Bool) (s : Preparation real)
      → IsFilling (view real s)
      → HasRoom (view real s)
      → s.plan.prep.pl_block ≡ none
      → flag ≡ s.plan.prep.flag_partial_block
      → Takes (view real s) (load_of o flag s)
  load_of-Takes none flag s h room e f = no_block
  load_of-Takes (some b) true s h room e f =
      let begun : true ≡ (view real s).is_begun =
        f ∙ ap (λ x. is_begun x s.plan.prep.flag_partial_block) (sym e) in
      takes (record {
        block = s.plan.planner.tail;
        block_is = refl;
        taken =
            (marked-IsFilling (view real s) true begun h, self-Kept s.stepper, room, omega arith);
      })
  load_of-Takes (some b) false s h room e f =
      let not_begun : (view real s).is_begun ≡ false =
        ap (λ x. is_begun x s.plan.prep.flag_partial_block) e ∙ sym f in
      let (fills, kept) = loaded-IsFilling (data_of s) (view real s) h room not_begun in
      let after : Taken (view real s) (loaded_view (data_of s) (view real s)) =
        (fills, kept, room, omega arith) in
      takes (record {
        block = s.plan.planner.tail;
        block_is =
            pl_block-load_new_block s.plan.planner.tail
              (point_at real (some s.plan.planner.tail) false s);
        taken = subst (Taken (view real s)) (sym (view-load_new_block s)) after;
      })

  with_profile-Takes :
      {v : View} {o : Option (Preparation real)} → Takes v o → Takes v (with_profile real o)
  with_profile-Takes no_block = no_block
  with_profile-Takes {v} (takes {t = t} h) = takes (record {
    block = h.block;
    block_is = pl_block-compute_profile t.plan.planner.tail t ∙ h.block_is;
    taken = subst (Taken v) (sym (view-compute_profile real t.plan.planner.tail t)) h.taken;
  })

  take_block-Takes :
      (o : Option ℕ) (s : Preparation real)
      → IsFilling (view real s)
      → HasRoom (view real s)
      → o ≡ s.plan.prep.pl_block
      → Takes (view real s) (take_block real o s)
  unfolding load_block
  take_block-Takes (some i) s h room e =
      takes (record {
        block = i;
        block_is = sym e;
        taken = (h, self-Kept s.stepper, room, omega arith);
      })
  take_block-Takes none s h room e = with_profile-Takes (
      load_of-Takes (plan_get_current_block real s.plan.planner) s.plan.prep.flag_partial_block s h
        room (sym e) refl)

  -- The outcome of a round, from the view `v` on.
  pub data Makes (v : View) : Option (Outcome real) → Type 0 where
    no_outcome : Makes v none
    makes : {o : Outcome real} → Ends real v o → Makes v (some o)

  chain-Ends : (v w : View) (o : Outcome real) → Taken v w → Ends real w o → Ends real v o
  chain-Ends v w (continue u) (f, k, r, l) (g, m, n) =
      (g, chain-Kept v.stepper w.stepper u.stepper k m, omega (arith, l, n))
  chain-Ends v w (bail none) t e = tt
  chain-Ends v w (bail (some u)) (f, k, r, l) (g, m, n) =
      (g, chain-Kept v.stepper w.stepper u.stepper k m, omega (arith, l, n))

  abbrev finish_of : ℕ → Option (Ramping real) → Option (Outcome real)
  finish_of i o = elim o [
    | none ↦ none
    | some r ↦ some (finish_segment real i r.mm_remaining r.dt r.preparation)
  ]

  finish_of-Makes :
      (i : ℕ) {v : View} {o : Option (Ramping real)}
      → IsFilling v
      → HasRoom v
      → v.is_begun ≡ true
      → KeepsView real v o
      → Makes v (finish_of i o)
  finish_of-Makes i h room e no_end = no_outcome
  finish_of-Makes i h room e (ended {r = r} q) = makes (
      subst (λ w. Ends real w (finish_segment real i r.mm_remaining r.dt r.preparation)) q
        (finish_segment-Ends real i r.mm_remaining r.dt r.preparation (subst IsFilling (sym q) h)
          (subst HasRoom (sym q) room) (ap (λ w. w.is_begun) q ∙ e)))

  make_segment-Makes :
      (fuel i : ℕ) (t : Preparation real)
      → IsFilling (view real t)
      → HasRoom (view real t)
      → t.plan.prep.pl_block ≡ some i
      → Makes (view real t) (make_segment_of real fuel (some i) t)
  unfolding make_segment
  make_segment-Makes fuel i t h room e =
      finish_of-Makes i h room (ap (λ o. is_begun o t.plan.prep.flag_partial_block) e) (
        ramp_loop-KeepsView real fuel i (minimum_distance real i t) (view real t)
          (first_ramp real i t) refl)

  pub data Rounds (v : View) : Option (Option (Outcome real)) → Type 0 where
    stops : Rounds v none
    goes : {o : Option (Outcome real)} → Makes v o → Rounds v (some o)

  chain-Makes : {v w : View} {o : Option (Outcome real)} → Taken v w → Makes w o → Makes v o
  chain-Makes h no_outcome = no_outcome
  chain-Makes {v} {w} h (makes {o = o} e) = makes (chain-Ends v w o h e)

  abbrev round_of : ℕ → Option (Preparation real) → Option (Option (Outcome real))
  round_of fuel o = elim o [
    | none ↦ none
    | some t ↦ some (make_segment_of real fuel t.plan.prep.pl_block t)
  ]

  round_of-Rounds :
      (fuel : ℕ) {v : View} {o : Option (Preparation real)} → Takes v o → Rounds v (round_of fuel o)
  round_of-Rounds fuel no_block = stops
  round_of-Rounds fuel {v} (takes {t = t} h) =
      let (fills, kept, room, longer) = h.taken in
      goes (
        subst (λ x. Makes v (make_segment_of real fuel x t)) (sym h.block_is)
          (chain-Makes h.taken (make_segment-Makes fuel h.block t fills room h.block_is)))

  pub prep_round-Rounds :
      (fuel : ℕ) (s : Preparation real)
      → IsFilling (view real s)
      → HasRoom (view real s)
      → Rounds (view real s) (prep_round real fuel s)
  unfolding prep_round
  prep_round-Rounds fuel s h room =
      round_of-Rounds fuel (take_block-Takes s.plan.prep.pl_block s h room refl)
