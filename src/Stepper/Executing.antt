-- ===== src/Stepper/Executing.antt =====
-- What holds between two events of a block, from its first one on.
use cpcbm.Base.{
  ℕ, zero, suc, ◌+◌, ◌*◌, ◌/◌, ◌%◌, ◌^◌, ◌≡◌, ◌≢◌, ◌≤◌, refl, sym, ap, ◌∙◌, arith, Bool, true,
  false, Option, none, some, ◌==◌, if◌then◌else◌, eq→==,
}
use cpcbm.Base.Int.{ℤ}
use cpcbm.Base.Real.{Vec, Axis, x_axis, y_axis, z_axis, at}
use cpcbm.Probe.{Readings}
use cpcbm.Stepper.{
  StBlock, Stepper, st_block_at, segment_at, load_segment, use_block, scale, exec_block_of,
  step_event, end_event, trace_axis, with_segment, main_timer_isr,
}
use cpcbm.Stepper.Bresenham.{OnLine}
use cpcbm.Stepper.Trace.{IsTraced, AreTraced, IsBlock, step_event-AreTraced}
use cpcbm.Stepper.Run.{unit, segment_in, GoesOn}

-- The state between two events of the block.
pub record Executing (b : StBlock) (j : ℕ) (z : Vec ℤ) (w : ℕ) (s : Stepper) : Type 0 where
  pub ready : s.busy ≡ false
  pub index_is : s.exec_block_index ≡ j
  pub exec_is : s.exec_block ≡ some j
  pub block_is : st_block_at s j ≡ b
  pub traced : AreTraced b z w s
  pub scaled :
      (i : ℕ)
      → s.exec_segment ≡ some i
      → (a : Axis) → at s.steps a ≡ at b.steps a / 8 * unit ((segment_at s i).amass_level)

scaled_by : (n l : ℕ) → n % 8 ≡ 0 → l ≤ 3 → n / 2 ^ l ≡ n / 8 * unit l
scaled_by n zero h le = omega (arith, h)
scaled_by n (suc zero) h le = omega (arith, h)
scaled_by n (suc (suc zero)) h le = omega (arith, h)
scaled_by n (suc (suc (suc zero))) h le = omega (arith, h)
scaled_by n (suc (suc (suc (suc l)))) h le = absurd (omega arith)

unit_le : (l : ℕ) → unit l ≤ 8
unit_le zero = omega arith
unit_le (suc zero) = omega arith
unit_le (suc (suc zero)) = omega arith
unit_le (suc (suc (suc n))) = omega arith

kept_segment :
    (c : Bool) (o : Option ℕ) (i k : ℕ) → o ≡ some i → (if c then none else o) ≡ some k → i ≡ k
kept_segment true o i k e x = absurd (cc x)
kept_segment false o i k e x = cc (e, x)

at-scale : (v : Vec ℕ) (a : Axis) (l : ℕ) → at (scale l v) a ≡ at v a / 2 ^ l
at-scale v x_axis l = refl
at-scale v y_axis l = refl
at-scale v z_axis l = refl

-- An event with a segment that is loaded.
loaded_event :
    {b : StBlock} {j : ℕ} {z : Vec ℤ} (w i : ℕ) (pins : Readings) (s : Stepper)
    → IsBlock b
    → s.exec_segment ≡ some i
    → s.exec_block_index ≡ j
    → s.exec_block ≡ some j
    → st_block_at s j ≡ b
    → AreTraced b z w s
    → ((a : Axis) → at s.steps a ≡ at b.steps a / 8 * unit ((segment_at s i).amass_level))
    → Executing b j z (w + unit ((segment_at s i).amass_level)) (step_event pins s)
unfolding step_event end_event trace_axis
loaded_event {b} {j} {z} w i pins s h e index exec block t scaled = record {
  ready = refl;
  index_is = index;
  exec_is = exec;
  block_is = block;
  traced =
      step_event-AreTraced b z w (unit ((segment_at s i).amass_level)) pins s h
        (unit_le (segment_at s i).amass_level)
        (ap (λ o. exec_block_of o s.st_block_buffer) exec ∙ block, scaled) t;
  scaled = λ k x a.
      (let same = kept_segment _ s.exec_segment i k e x in
        scaled a ∙ ap (λ n. at b.steps a / 8 * unit ((segment_at s n).amass_level)) same);
}

at_start : (e n : ℕ) → 2 ≤ e → OnLine e n 0 (e / 2) 0
at_start e n l = record { kept = omega arith; positive = omega arith; bounded = omega arith }

-- The counters at the start of a block: no axis has made a step.
started :
    (b : StBlock) (axis : Axis) (z : Vec ℤ) (h : IsBlock b)
    → IsTraced b axis
        (at z axis)
        0
        (record {
          x = b.step_event_count / 2;
          y = b.step_event_count / 2;
          z = b.step_event_count / 2;
        })
        z
started b x_axis z h = record {
  made = 0;
  on_line = at_start b.step_event_count _ h.some_events;
  there = refl;
}
started b y_axis z h = record {
  made = 0;
  on_line = at_start b.step_event_count _ h.some_events;
  there = refl;
}
started b z_axis z h = record {
  made = 0;
  on_line = at_start b.step_event_count _ h.some_events;
  there = refl;
}

-- The first event of a segment.
used_event :
    {b : StBlock} {j : ℕ} {z : Vec ℤ} (w i : ℕ) (pins : Readings) (s : Stepper)
    → IsBlock b
    → s.exec_segment ≡ some i
    → s.exec_block_index ≡ j
    → s.exec_block ≡ some j
    → st_block_at s j ≡ b
    → AreTraced b z w s
    → (segment_at s i).amass_level ≤ 3
    → Executing b j z
        (w + unit ((segment_at s i).amass_level))
        (step_event pins (use_block (segment_at s i) s))
used_event {b} {j} {z} w i pins s h e index exec block t level =
    loaded_event w i pins (use_block (segment_at s i) s) h e index exec block
      (record { along_x = t.along_x; along_y = t.along_y; along_z = t.along_z })
      (λ a. rw (ap (λ o. exec_block_of o s.st_block_buffer) exec ∙ block) (
        at-scale b.steps a (segment_at s i).amass_level
        ∙ scaled_by (at b.steps a) ((segment_at s i).amass_level) (h.multiple a) level))

-- The first event of another segment of the block that is executed.
waiting_event :
    {b : StBlock} {j : ℕ} {z : Vec ℤ} (w : ℕ) (pins : Readings) (s : Stepper)
    → IsBlock b
    → s.exec_block_index ≡ j
    → s.exec_block ≡ some j
    → st_block_at s j ≡ b
    → AreTraced b z w s
    → (segment_at s s.segment_buffer_tail).st_block_index ≡ j
    → (segment_at s s.segment_buffer_tail).amass_level ≤ 3
    → Executing b j z
        (w + unit ((segment_at s s.segment_buffer_tail).amass_level))
        (step_event pins (load_segment s))
unfolding load_segment
waiting_event {b} {j} {z} w pins s h index exec block t of_block level =
    rw (eq→== s.exec_block_index _ (index ∙ sym of_block)) (
      used_event w s.segment_buffer_tail pins
        (record s {
          exec_segment = some s.segment_buffer_tail;
          timer_period = (segment_at s s.segment_buffer_tail).cycles_per_tick;
          step_count = (segment_at s s.segment_buffer_tail).n_step;
        })
        h refl index exec block
        (record { along_x = t.along_x; along_y = t.along_y; along_z = t.along_z }) level)

-- The first event of a block.
pub first_event :
    {b : StBlock} {j : ℕ} (pins : Readings) (s : Stepper)
    → IsBlock b
    → s.exec_block_index ≢ j
    → st_block_at s j ≡ b
    → (segment_at s s.segment_buffer_tail).st_block_index ≡ j
    → (segment_at s s.segment_buffer_tail).amass_level ≤ 3
    → Executing b j s.position
        (0 + unit ((segment_at s s.segment_buffer_tail).amass_level))
        (step_event pins (load_segment s))
unfolding load_segment
first_event {b} {j} pins s h other block of_block level =
    let segment = segment_at s s.segment_buffer_tail in
    let half = (st_block_at s segment.st_block_index).step_event_count / 2 in
    let is_half : half ≡ b.step_event_count / 2 =
      ap (λ n. (st_block_at s n).step_event_count / 2) of_block
      ∙ ap (λ x. x.step_event_count / 2) block in
    let differs : (s.exec_block_index == segment.st_block_index) ≡ false =
      ground (arith, of_block) in
    rw differs (
      used_event 0 s.segment_buffer_tail pins
        (record s {
          exec_segment = some s.segment_buffer_tail;
          timer_period = segment.cycles_per_tick;
          step_count = segment.n_step;
          exec_block_index = segment.st_block_index;
          exec_block = some segment.st_block_index;
          counter = record { x = half; y = half; z = half };
        })
        h refl of_block (ap some of_block) block
        (record {
          along_x = rw is_half (started b x_axis s.position h);
          along_y = rw is_half (started b y_axis s.position h);
          along_z = rw is_half (started b z_axis s.position h);
        })
        level)

-- What the interrupt writes to the ports, before an event.
abbrev pub marked : Stepper → Stepper
marked s = record s { direction_port = s.dir_outbits; step_port = s.step_outbits; busy = true }

pub isr_is :
    (pins : Readings) (s : Stepper) (o : Option ℕ)
    → s.busy ≡ false
    → s.exec_segment ≡ o
    → main_timer_isr pins s ≡ with_segment pins o (marked s)
unfolding main_timer_isr
isr_is pins s o ready e = simp (ready, e) refl

pub waiting_is :
    (s : Stepper)
    → s.segment_buffer_head ≢ s.segment_buffer_tail
    → (s.segment_buffer_head == s.segment_buffer_tail) ≡ false
waiting_is s n = ground arith

-- The same lines at the same place.
pub same-AreTraced :
    {b : StBlock} {z : Vec ℤ} {w : ℕ} (s t : Stepper)
    → t.counter ≡ s.counter
    → t.position ≡ s.position
    → AreTraced b z w s
    → AreTraced b z w t
same-AreTraced s t c p h = record {
  along_x = rw (c, p) h.along_x;
  along_y = rw (c, p) h.along_y;
  along_z = rw (c, p) h.along_z;
}

-- An event of the block that is executed.
pub isr-Executing :
    {b : StBlock} {j : ℕ} {z : Vec ℤ} (w : ℕ) (pins : Readings) (s : Stepper) (o : Option ℕ)
    → s.exec_segment ≡ o
    → IsBlock b
    → Executing b j z w s
    → GoesOn j s
    → Executing b j z (w + unit ((segment_in o s).amass_level)) (main_timer_isr pins s)
isr-Executing w pins s (some i) e h x g = rw (isr_is pins s (some i) x.ready e) (
    loaded_event w i pins (marked s) h e x.index_is x.exec_is x.block_is
      (same-AreTraced s (marked s) refl refl x.traced) (x.scaled i e))
isr-Executing {j = j} w pins s none e h x g =
    let of_block : (segment_at s s.segment_buffer_tail).st_block_index ≡ j = rw e at g.of_block in
    let level : (segment_at s s.segment_buffer_tail).amass_level ≤ 3 = rw e at g.level in
    rw (isr_is pins s none x.ready e, waiting_is s (g.waiting e))
      (waiting_event w pins (marked s) h x.index_is x.exec_is x.block_is
        (same-AreTraced s (marked s) refl refl x.traced) of_block level)
