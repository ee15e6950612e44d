-- ===== src/Stepper/Trace.antt =====
-- One event of the stepper interrupt, axis by axis.
use cpcbm.Base.{
  ℕ, zero, suc, ◌+◌, ◌-◌, ◌*◌, ◌/◌, ◌%◌, ◌^◌, ◌≡◌, ◌≢◌, ◌<◌, ◌≤◌, refl, ap, ap₂, ◌∙◌, arith, Bool,
  true, false, if◌then◌else◌, Bool-cases, inl, inr,
}
use cpcbm.Base.Int.{ℤ, increment, decrement}
use cpcbm.Base.Real.{Vec, Axis, x_axis, y_axis, z_axis, at, put}
use native.Mathlib.Nat.{mul-add}
use cpcbm.Probe.{Readings, probe_state_monitor}
use cpcbm.Base.Bits.{no_bits}
use cpcbm.Stepper.{
  StBlock, Stepper, block_in, direction_bit, advance_counter, trace_axis, end_event, step_event,
}
use cpcbm.Stepper.Bresenham.{count_if, OnLine, advance_counter-OnLine}

-- A position after `k` steps; the flag is the direction bit.
abbrev pub moved : Bool → ℕ → ℤ → ℤ
moved backwards zero z = z
moved backwards (suc k) z =
    if backwards then decrement (moved backwards k z) else increment (moved backwards k z)

-- An axis of a block `b` after `w` units of work, where `z` was its position before.
pub record IsTraced (b : StBlock) (axis : Axis) (z : ℤ) (w : ℕ) (counter : Vec ℕ) (position : Vec ℤ)
    : Type 0 where
  pub made : ℕ
  pub on_line : OnLine b.step_event_count (at b.steps axis / 8) w (at counter axis) made
  pub there : at position axis ≡ moved (b.direction_bits (direction_bit axis)) made z

at-put : {A : Type 0} (v : Vec A) (a b : Axis) (x : A) → a ≢ b → at (put v a x) b ≡ at v b
at-put v x_axis x_axis x n = absurd (n refl)
at-put v x_axis y_axis x n = refl
at-put v x_axis z_axis x n = refl
at-put v y_axis x_axis x n = refl
at-put v y_axis y_axis x n = absurd (n refl)
at-put v y_axis z_axis x n = refl
at-put v z_axis x_axis x n = refl
at-put v z_axis y_axis x n = refl
at-put v z_axis z_axis x n = absurd (n refl)

at-put_same : {A : Type 0} (v : Vec A) (a : Axis) (x : A) → at (put v a x) a ≡ x
at-put_same v x_axis x = refl
at-put_same v y_axis x = refl
at-put_same v z_axis x = refl

at_if :
    (c : Bool) (v : Vec ℤ) (a : Axis) (x : ℤ)
    → at (if c then put v a x else v) a ≡ (if c then x else at v a)
at_if true v a x = at-put_same v a x
at_if false v a x = refl

at_if_other :
    (c : Bool) (v : Vec ℤ) (a b : Axis) (x : ℤ) → a ≢ b → at (if c then put v a x else v) b ≡ at v b
at_if_other true v a b x n = at-put v a b x n
at_if_other false v a b x n = refl

-- What an event does to its axis.
module _ (b : StBlock) (axis : Axis) (u : ℕ) (s : Stepper) (e : block_in s ≡ b)
    (q : at s.steps axis ≡ at b.steps axis / 8 * u) where
  abbrev result : ℕ × Bool
  result = advance_counter b.step_event_count (at s.counter axis) (at b.steps axis / 8 * u)

  result_is :
      advance_counter (block_in s).step_event_count (at s.counter axis) (at s.steps axis) ≡ result
  result_is =
      ap₂ (λ x y. advance_counter x (at s.counter axis) y) (ap (λ x. x.step_event_count) e) q

  counter_after : at (trace_axis axis s).counter axis ≡ result.0
  unfolding trace_axis
  counter_after = at-put_same s.counter axis _ ∙ ap (λ x. x.0) result_is

  position_after : at (trace_axis axis s).position axis ≡ (
      if result.1
      then (if b.direction_bits (direction_bit axis)
          then decrement (at s.position axis)
          else increment (at s.position axis))
      else at s.position axis)
  unfolding trace_axis
  position_after =
      at_if _ s.position axis _
      ∙ ap₂
          (λ x y.
            if x
            then (if y then decrement (at s.position axis) else increment (at s.position axis))
            else at s.position axis)
          (ap (λ x. x.1) result_is) (ap (λ x. x.direction_bits (direction_bit axis)) e)

  -- The axis itself.
  pub trace_axis-IsTraced :
      (z : ℤ) (w : ℕ)
      → 2 * b.step_event_count < 2 ^ 32
      → at b.steps axis / 8 * u ≤ b.step_event_count
      → IsTraced b axis z w s.counter s.position
      → IsTraced b axis z (w + u) ((trace_axis axis s).counter) ((trace_axis axis s).position)
  trace_axis-IsTraced z w h l t = record {
    made = count_if (result.1) t.made;
    on_line = rw counter_after (
        advance_counter-OnLine b.step_event_count (at b.steps axis / 8) w (at s.counter axis) t.made
          u h l t.on_line);
    there = position_after ∙ elim (Bool-cases (result.1)) [
      | inl y ↦ rw (y, t.there) refl
      | inr n ↦ rw (n, t.there) refl
    ];
  }

-- Another axis.
pub trace_axis_other :
    (b : StBlock) (axis other : Axis) (z : ℤ) (w : ℕ) (s : Stepper)
    → axis ≢ other
    → IsTraced b other z w s.counter s.position
    → IsTraced b other z w ((trace_axis axis s).counter) ((trace_axis axis s).position)
unfolding trace_axis
trace_axis_other b axis other z w s n t = record {
  made = t.made;
  on_line = rw (at-put s.counter axis other _ n) t.on_line;
  there = at_if_other _ s.position axis other _ n ∙ t.there;
}

-- All axes.
pub record AreTraced (b : StBlock) (z : Vec ℤ) (w : ℕ) (s : Stepper) : Type 0 where
  pub along_x : IsTraced b x_axis z.x w s.counter s.position
  pub along_y : IsTraced b y_axis z.y w s.counter s.position
  pub along_z : IsTraced b z_axis z.z w s.counter s.position

-- The block's data: events and units fit, and each axis has eight units for a step.
pub record IsBlock (b : StBlock) : Type 0 where
  pub some_events : 2 ≤ b.step_event_count
  pub no_overflow : 2 * b.step_event_count < 2 ^ 32
  pub multiple : (a : Axis) → at b.steps a % 8 ≡ 0
  pub dominated : (a : Axis) → at b.steps a / 8 * 8 ≤ b.step_event_count

abbrev pub Uses : StBlock → ℕ → Stepper → Type 0
Uses b u s = (block_in s ≡ b) × ((a : Axis) → at s.steps a ≡ at b.steps a / 8 * u)

units_fit :
    (b : StBlock) (a : Axis) (u : ℕ) → IsBlock b → u ≤ 8 → at b.steps a / 8 * u ≤ b.step_event_count
units_fit b a u h l =
    let whole : at b.steps a / 8 * 8 ≡ at b.steps a / 8 * (u + (8 - u)) =
      ap (λ n. at b.steps a / 8 * n) (omega arith) in
    omega (arith, whole, mul-add (at b.steps a / 8) u (8 - u), h.dominated a)

pub step_event-AreTraced :
    (b : StBlock) (z : Vec ℤ) (w u : ℕ) (pins : Readings) (s : Stepper)
    → IsBlock b
    → u ≤ 8
    → Uses b u s
    → AreTraced b z w s
    → AreTraced b z (w + u) (step_event pins s)
unfolding step_event end_event trace_axis
step_event-AreTraced b z w u pins s h l (e, q) t =
    let s0 : Stepper = record s {
      probe = probe_state_monitor pins s.position s.probe;
      step_outbits = no_bits;
    } in
    let sx = trace_axis x_axis s0 in
    let sy = trace_axis y_axis sx in
    let fits = λ (a : Axis). units_fit b a u h l in
    record {
      along_x =
          trace_axis_other b z_axis x_axis z.x (w + u) sy (λ e. cc e)
            (trace_axis_other b y_axis x_axis z.x (w + u) sx (λ e. cc e)
              (trace_axis-IsTraced b x_axis u s0 e (q x_axis) z.x w h.no_overflow (fits x_axis)
                t.along_x));
      along_y =
          trace_axis_other b z_axis y_axis z.y (w + u) sy (λ e. cc e)
            (trace_axis-IsTraced b y_axis u sx e (q y_axis) z.y w h.no_overflow (fits y_axis)
              (trace_axis_other b x_axis y_axis z.y w s0 (λ e. cc e) t.along_y));
      along_z = trace_axis-IsTraced b z_axis u sy e (q z_axis) z.z w h.no_overflow (fits z_axis) (
          trace_axis_other b y_axis z_axis z.z w sx (λ e. cc e)
            (trace_axis_other b x_axis z_axis z.z w s0 (λ e. cc e) t.along_z));
    }
