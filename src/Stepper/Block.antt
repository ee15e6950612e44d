-- ===== src/Stepper/Block.antt =====
-- A whole block: every axis makes the steps that the block has for it.
use cpcbm.Base.{ℕ, ◌+◌, ◌*◌, ◌/◌, ◌%◌, ◌^◌, ◌≡◌, ◌≤◌, ◌<◌, refl, sym, ap, ◌∙◌, arith, none}
use cpcbm.Base.Int.{ℤ}
use cpcbm.Base.Real.{Vec, Axis, x_axis, y_axis, z_axis, at}
use cpcbm.Probe.{Readings}
use cpcbm.Stepper.{StBlock, Stepper, segment_at, direction_bit, main_timer_isr}
use cpcbm.Stepper.Bresenham.{OnLine-whole}
use cpcbm.Stepper.Trace.{moved, IsTraced, IsBlock}
use cpcbm.Stepper.Prepare.{scaled_block, bits_of}
use cpcbm.Stepper.Run.{unit, segment_in, Begins, IsFed, Run, begin, event, feed}
use cpcbm.Stepper.Executing.{
  Executing, first_event, isr-Executing, same-AreTraced, isr_is, waiting_is, marked,
}

begin-Executing :
    {b : StBlock} {j : ℕ} (pins : Readings) (s : Stepper)
    → IsBlock b
    → Begins b j s
    → Executing b j s.position (0 + unit ((segment_in none s).amass_level)) (main_timer_isr pins s)
begin-Executing {b} {j} pins s h x =
    let of_block : (segment_at s s.segment_buffer_tail).st_block_index ≡ j =
      rw x.between at x.goes_on.of_block in
    let level : (segment_at s s.segment_buffer_tail).amass_level ≤ 3 =
      rw x.between at x.goes_on.level in
    rw (isr_is pins s none x.ready x.between, waiting_is s (x.goes_on.waiting x.between))
      (first_event pins (marked s) h x.other x.block_is of_block level)

feed-Executing :
    {b : StBlock} {j : ℕ} {z : Vec ℤ} {w : ℕ} (s t : Stepper)
    → IsFed j s t
    → Executing b j z w s
    → Executing b j z w t
feed-Executing {b} s t f x = record {
  ready = f.ready ∙ x.ready;
  index_is = f.index_same ∙ x.index_is;
  exec_is = f.exec_same ∙ x.exec_is;
  block_is = f.block_same ∙ x.block_is;
  traced = same-AreTraced s t f.counter_same f.position_same x.traced;
  scaled = λ i e a.
      (let before = sym f.segment_same ∙ e in
        ap (λ v. at v a) f.steps_same
        ∙ x.scaled i before a
        ∙ ap (λ l. at b.steps a / 8 * unit l) (sym (f.level_same i before)));
}

Run-Executing :
    {b : StBlock} {j : ℕ} {z : Vec ℤ} {w : ℕ} {s : Stepper}
    → IsBlock b
    → Run b j z w s
    → Executing b j z w s
Run-Executing {b} {j} h (begin {w = w} s pins x p e t) =
    let work : w ≡ 0 + unit ((segment_in none s).amass_level) =
      e ∙ ap (λ o. unit ((segment_in o s).amass_level)) x.between ∙ omega arith in
    rw (t, work, sym p) (begin-Executing pins s h x)
Run-Executing h (event {v = v} {s = s} pins r g e t) =
    rw (t, e) (isr-Executing v pins s s.exec_segment refl h (Run-Executing h r) g)
Run-Executing h (feed {s = s} {t = t} r f) = feed-Executing s t f (Run-Executing h r)

made_is :
    {b : StBlock} {axis : Axis} {z : ℤ} {counter : Vec ℕ} {position : Vec ℤ}
    → IsBlock b
    → IsTraced b axis z b.step_event_count counter position
    → at position axis ≡ moved (b.direction_bits (direction_bit axis)) (at b.steps axis / 8) z
made_is {b} {axis} {z} {counter} h t =
    let made : t.made ≡ at b.steps axis / 8 =
      OnLine-whole b.step_event_count (at b.steps axis / 8) (at counter axis) t.made h.some_events
        t.on_line in
    t.there ∙ ap (λ k. moved (b.direction_bits (direction_bit axis)) k z) made

-- Whatever the lengths and the levels of its segments, a block whose step events are all made has
-- moved each axis by an eighth of its units.
block_moves_all_steps :
    (b : StBlock) (j w : ℕ) (z : Vec ℤ) (s : Stepper)
    → IsBlock b
    → b.step_event_count ≡ w
    → Run b j z w s
    → (s.position.x ≡ moved (b.direction_bits 4) (b.steps.x / 8) z.x)
      × (s.position.y ≡ moved (b.direction_bits 10) (b.steps.y / 8) z.y)
      × (s.position.z ≡ moved (b.direction_bits 8) (b.steps.z / 8) z.z)
block_moves_all_steps b j w z s h e r =
    let t = rw (sym e) at (Run-Executing h r).traced in
    (made_is h t.along_x, made_is h t.along_y, made_is h t.along_z)

-- The planner's block, as it is loaded, is one that the interrupt can trace.
pub scaled_block-IsBlock :
    (bits : ℕ) (steps : Vec ℕ) (count : ℕ)
    → 0 < count
    → count < 2 ^ 27
    → steps.x ≤ count
    → steps.y ≤ count
    → steps.z ≤ count
    → IsBlock (scaled_block bits steps count)
unfolding scaled_block
scaled_block-IsBlock bits steps count l h x y z = record {
  some_events = omega arith;
  no_overflow = omega arith;
  multiple = λ a. elim a as (λ k. at (scaled_block bits steps count).steps k % 8 ≡ 0) [
    | x_axis ↦ omega arith
    | y_axis ↦ omega arith
    | z_axis ↦ omega arith
  ];
  dominated = λ a.
      elim a
        as (λ k.
          at (scaled_block bits steps count).steps k / 8 * 8
          ≤ (scaled_block bits steps count).step_event_count) [
            | x_axis ↦ omega arith
            | y_axis ↦ omega arith
            | z_axis ↦ omega arith
          ];
}

eighth : (n count : ℕ) → count < 2 ^ 27 → n ≤ count → n * 8 % 2 ^ 32 / 8 ≡ n
eighth n count h l = omega arith

-- A block of the planner has some events, fewer than 2^27, and no axis has more steps than the block
-- has events. It is loaded for the stepper, and the interrupt runs from the first event of the block
-- on, with the main program filling the buffers between any two events and leaving alone what is
-- being executed. Then, whatever the lengths and the smoothing levels of the segments, once they
-- make up the block's step events, the position of each axis has moved by exactly the steps that the
-- planner asked for, in the direction of its bit.
pub planned_steps_made :
    (bits : ℕ) (steps : Vec ℕ) (count j : ℕ) (z : Vec ℤ) (s : Stepper)
    → 0 < count
    → count < 2 ^ 27
    → steps.x ≤ count
    → steps.y ≤ count
    → steps.z ≤ count
    → Run (scaled_block bits steps count) j z (count * 8) s
    → (s.position.x ≡ moved (bits_of bits 4) steps.x z.x)
      × (s.position.y ≡ moved (bits_of bits 10) steps.y z.y)
      × (s.position.z ≡ moved (bits_of bits 8) steps.z z.z)
unfolding scaled_block
planned_steps_made bits steps count j z s positive fits x y w r =
    let b = scaled_block bits steps count in
    let is_block = scaled_block-IsBlock bits steps count positive fits x y w in
    let all : b.step_event_count ≡ count * 8 = omega arith in
    let (along_x, along_y, along_z) = block_moves_all_steps b j (count * 8) z s is_block all r in
    (
      along_x ∙ ap (λ n. moved (bits_of bits 4) n z.x) (eighth steps.x count fits x),
      along_y ∙ ap (λ n. moved (bits_of bits 10) n z.y) (eighth steps.y count fits y),
      along_z ∙ ap (λ n. moved (bits_of bits 8) n z.z) (eighth steps.z count fits w),
    )
