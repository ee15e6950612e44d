-- ===== src/Stepper/Reached.antt =====
-- From a reset on the rings stay valid, whatever the main program and the interrupts do.
use cpcbm.Base.{ℕ, ◌≡◌, refl, ap, ◌∙◌, sym, subst, arith, Option, none, some, length}
use cpcbm.Base.Real.{Real}
use cpcbm.Probe.{Readings}
use cpcbm.System.{State}
use cpcbm.Planner.{Planner}
use cpcbm.Planner.Partial.{begun}
use cpcbm.Planner.Recalculate.{Plan, st_update_plan_block_parameters, update_block}
use cpcbm.Ring.Count.{next, used}
use cpcbm.Stepper.{Stepper, segment_buffer_size, main_timer_isr, st_wake_up, st_go_idle}
use cpcbm.Stepper.Prepare.{Preparation}
use cpcbm.Stepper.Kept.{Kept, marked-IsFilling}
use cpcbm.Stepper.Filled.{view}
use cpcbm.Stepper.Fill.{Filling, ready, endless, out_of_rounds, st_prep_buffer}
use cpcbm.Stepper.Returns.{Fills, st_prep_buffer-Fills}
use cpcbm.Stepper.Feeds.{still-IsWaiting}
use cpcbm.Stepper.Reset.{reset_stepper, pulse_timer_isr, st_reset}
use cpcbm.Stepper.Rings.{SameRings}
use cpcbm.Stepper.Running.{IsRunning, same-IsRunning, main_timer_isr-IsRunning}

module _ (real : Real) where
  -- What may happen after state `s`: the interrupts and `st_prep_buffer`, which runs with no interrupt in
  -- the middle; any change of the planner's own variables or of the machine's state; and the calls
  -- of the driver by the other parts.
  pub data Reached (s : Preparation real) : Preparation real → Type 0 where
    itself : Reached s s
    steps :
        {t : Preparation real} (pins : Readings)
        → Reached s t
        → Reached s (record t { stepper = main_timer_isr pins t.stepper })
    pulses :
        {t : Preparation real}
        → Reached s t
        → Reached s (record t { stepper = pulse_timer_isr t.stepper })
    prepares :
        {t u : Preparation real} (fuel : ℕ)
        → Reached s t
        → st_prep_buffer real fuel t ≡ ready u
        → Reached s u
    plans :
        {t : Preparation real} (q : Planner real)
        → Reached s t
        → Reached s (record t { plan = record t.plan { planner = q } })
    updates :
        {t : Preparation real}
        → Reached s t
        → Reached s (record t { plan = st_update_plan_block_parameters real t.plan })
    turns :
        {t : Preparation real} (state : State)
        → Reached s t
        → Reached s (record t { stepper = record t.stepper { state = state } })
    wakes :
        {t : Preparation real}
        → Reached s t
        → Reached s (record t { stepper = st_wake_up t.stepper })
    idles :
        {t : Preparation real}
        → Reached s t
        → Reached s (record t { stepper = st_go_idle t.stepper })
    resets :
        {t : Preparation real} (step_invert_mask dir_invert_mask : ℕ)
        → Reached s t
        → Reached s (st_reset real step_invert_mask dir_invert_mask t)

  st_reset-IsRunning :
      (step_invert_mask dir_invert_mask : ℕ) (s : Preparation real)
      → length s.stepper.segment_buffer ≡ segment_buffer_size
      → IsRunning (view real (st_reset real step_invert_mask dir_invert_mask s))
  unfolding st_reset reset_stepper next used
  st_reset-IsRunning step_invert_mask dir_invert_mask s storage = record {
    filling = record {
      storage = storage;
      head_in = omega arith;
      tail_in = omega arith;
      next_is = refl;
      index_in = omega arith;
      recent = tt;
    };
    executes = λ i e. absurd (cc e);
    waits = λ i e. absurd (cc e);
  }

  abbrev prepared : Preparation real → Filling real → Preparation real
  prepared t (ready u) = u
  prepared t endless = t
  prepared t out_of_rounds = t

  same_segment :
      {s t : Stepper} {i : ℕ} → Kept s t → t.exec_segment ≡ some i → s.exec_segment ≡ some i
  same_segment k e = sym (ap (λ s. s.exec_segment) k.rest_same) ∙ e

  Fills-IsRunning :
      (t : Preparation real) (o : Filling real) (u : Preparation real)
      → IsRunning (view real t)
      → o ≡ ready u
      → Fills real (view real t) o
      → IsRunning (view real u)
  Fills-IsRunning t (ready w) u h e (f, k) =
      subst (λ x. IsRunning (view real x)) (ap (prepared t) e)
        (record {
          filling = f;
          executes = λ i x.
              h.executes i (same_segment k x) ∙ sym (ap (λ s. s.segment_buffer_tail) k.rest_same);
          waits = λ i x.
              still-IsWaiting (view real t) (view real w) h.filling f k
                (h.waits i (same_segment k x));
        })
  Fills-IsRunning t endless u h e f = absurd (cc e)
  Fills-IsRunning t out_of_rounds u h e f = absurd f

  begun_after :
      (o : Option ℕ) (p : Plan real)
      → p.prep.pl_block ≡ o
      → begun real (update_block real o p) ≡ begun real p
  begun_after none p e = refl
  begun_after (some i) p e = rw e refl

  updated-IsRunning :
      (t : Preparation real)
      → IsRunning (view real t)
      → IsRunning (view real (record t { plan = st_update_plan_block_parameters real t.plan }))
  unfolding st_update_plan_block_parameters
  updated-IsRunning t h = record {
    filling =
        marked-IsFilling (view real t) _ (begun_after t.plan.prep.pl_block t.plan refl) h.filling;
    executes = h.executes;
    waits = h.waits;
  }

  st_wake_up-SameRings : (s : Stepper) → SameRings s (st_wake_up s)
  unfolding st_wake_up
  st_wake_up-SameRings s = record {
    buffer_same = ground arith;
    head_same = ground arith;
    tail_is_same = ground arith;
  }

  Reached-IsRunning :
      {s t : Preparation real} → Reached s t → IsRunning (view real s) → IsRunning (view real t)
  unfolding st_wake_up st_go_idle pulse_timer_isr
  Reached-IsRunning itself h = h
  Reached-IsRunning (steps {t = t} pins r) h =
      main_timer_isr-IsRunning (view real t) pins (Reached-IsRunning r h)
  Reached-IsRunning (pulses {t = t} r) h =
      same-IsRunning (view real t) (pulse_timer_isr t.stepper)
        (record { buffer_same = refl; head_same = refl; tail_is_same = refl }) refl
        (Reached-IsRunning r h)
  Reached-IsRunning (prepares {t = t} {u = u} fuel r e) h =
      let before = Reached-IsRunning r h in
      Fills-IsRunning t (st_prep_buffer real fuel t) u before e
        (st_prep_buffer-Fills real fuel t before.filling)
  Reached-IsRunning (plans {t = t} q r) h =
      let before = Reached-IsRunning r h in
      record { filling = before.filling; executes = before.executes; waits = before.waits }
  Reached-IsRunning (updates {t = t} r) h = updated-IsRunning t (Reached-IsRunning r h)
  Reached-IsRunning (turns {t = t} state r) h =
      same-IsRunning (view real t) (record t.stepper { state = state })
        (record { buffer_same = refl; head_same = refl; tail_is_same = refl }) refl
        (Reached-IsRunning r h)
  Reached-IsRunning (wakes {t = t} r) h =
      same-IsRunning (view real t) (st_wake_up t.stepper) (st_wake_up-SameRings t.stepper)
        (ground arith) (Reached-IsRunning r h)
  Reached-IsRunning (idles {t = t} r) h =
      same-IsRunning (view real t) (st_go_idle t.stepper)
        (record { buffer_same = refl; head_same = refl; tail_is_same = refl }) refl
        (Reached-IsRunning r h)
  Reached-IsRunning (resets {t = t} a b r) h =
      st_reset-IsRunning a b t ((Reached-IsRunning r h).filling.storage)

  -- In a driver whose segment ring has its six cells, after `st_reset` and whatever may follow it, the
  -- rings are valid: the indices are in range, the waiting segments use the blocks that were loaded
  -- last, and the segment that is executed, if there is one, is the oldest that waits.
  pub st_reset-Reached :
      (step_invert_mask dir_invert_mask : ℕ) (s t : Preparation real)
      → length s.stepper.segment_buffer ≡ segment_buffer_size
      → Reached (st_reset real step_invert_mask dir_invert_mask s) t
      → IsRunning (view real t)
  st_reset-Reached step_invert_mask dir_invert_mask s t storage r =
      Reached-IsRunning r (st_reset-IsRunning step_invert_mask dir_invert_mask s storage)
