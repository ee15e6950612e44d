-- ===== src/Stepper/Planned.antt =====
-- The block that `plan_buffer_line` computes, executed by the stepper driver.
use Prim.Native.Nat.{bit_or}
use cpcbm.Base.{
  ℕ, ◌*◌, ◌^◌, ◌≡◌, ◌≤◌, ◌<◌, refl, subst, ap, ap₂, ◌∙◌, arith, Bool, true, false, ◌==◌,
  if◌then◌else◌, length, get_or-set_self,
}
use cpcbm.Base.Int.{ℤ}
use cpcbm.Base.Real.{Real, Vec, x_axis, y_axis, z_axis}
use cpcbm.Settings.Global.{GlobalSettings}
use cpcbm.Planner.{PlanBlock, Planner, push_block, zero_block}
use cpcbm.Planner.Recalculate.{block_at}
use cpcbm.Planner.Line.{
  measure_axis, measured_block, motor_steps, delta_mm_signed, steps_to, target_steps, timed_block,
  store_block, Limits, buffer_block, limits_of, adjusted_rate,
}
use cpcbm.Stepper.{Stepper}
use cpcbm.Stepper.Trace.{moved}
use cpcbm.Stepper.Prepare.{scaled_block, bits_of}
use cpcbm.Stepper.Run.{Run}
use cpcbm.Stepper.Block.{planned_steps_made}

-- The direction bits of three tests.
abbrev three_bits : Bool → Bool → Bool → ℕ
three_bits x y z =
    let bits_x = if x then bit_or 0 (2 ^ 4) else 0 in
    let bits_y = if y then bit_or bits_x (2 ^ 10) else bits_x in
    if z then bit_or bits_y (2 ^ 8) else bits_y

three_bits_lem :
    (x y z : Bool)
    → (bits_of (three_bits x y z) 4 ≡ x)
      × (bits_of (three_bits x y z) 10 ≡ y)
      × (bits_of (three_bits x y z) 8 ≡ z)
three_bits_lem true true true = (refl, refl, refl)
three_bits_lem true true false = (refl, refl, refl)
three_bits_lem true false true = (refl, refl, refl)
three_bits_lem true false false = (refl, refl, refl)
three_bits_lem false true true = (refl, refl, refl)
three_bits_lem false true false = (refl, refl, refl)
three_bits_lem false false true = (refl, refl, refl)
three_bits_lem false false false = (refl, refl, refl)

module _ (real : Real) where
  open real use {R, decimal, lt}

  abbrev pub is_backwards : GlobalSettings real → Vec ℤ → Vec Bool
  is_backwards settings d = record {
    x = lt (delta_mm_signed real settings d x_axis) (decimal 0 0);
    y = lt (delta_mm_signed real settings d y_axis) (decimal 0 0);
    z = lt (delta_mm_signed real settings d z_axis) (decimal 0 0);
  }

  -- No motor has more steps than the block has events.
  measured_steps_le :
      (settings : GlobalSettings real) (d : Vec ℤ) (b : PlanBlock real)
      → let m = measured_block real settings d b in
        (m.steps.x ≤ m.step_event_count)
        × (m.steps.y ≤ m.step_event_count)
        × (m.steps.z ≤ m.step_event_count)
  unfolding measured_block measure_axis
  measured_steps_le settings d b = (ground arith, ground arith, ground arith)

  measured_motors :
      (settings : GlobalSettings real) (d : Vec ℤ) (b : PlanBlock real)
      → (measured_block real settings d b).steps ≡ motor_steps real settings d
  unfolding measured_block measure_axis
  measured_motors settings d b = refl

  measured_bits :
      (settings : GlobalSettings real) (d : Vec ℤ) (b : PlanBlock real)
      → let bits = (measured_block real settings d b).direction_bits in
        let back = is_backwards settings d in
        (bits_of bits 4 ≡ back.x) × (bits_of bits 10 ≡ back.y) × (bits_of bits 8 ≡ back.z)
  unfolding measured_block measure_axis
  measured_bits settings d b =
      let back = is_backwards settings d in three_bits_lem back.x back.y back.z

  -- The block in the cell that was at the head.
  stored_block :
      (steps : Vec ℤ) (unit_vec : Vec R) (measured block : PlanBlock real) (p : Planner real)
      → p.head < length p.block_buffer
      → 0 < measured.step_event_count
      → block_at real (store_block real steps unit_vec measured block p) p.head ≡ block
  unfolding store_block push_block
  stored_block steps unit_vec measured block p room some_steps =
      let test : (measured.step_event_count == 0) ≡ false = ground (arith, some_steps) in
      rw test (get_or-set_self p.block_buffer p.head block (zero_block real) room)

  -- The speeds do not change the steps.
  timed_steps :
      (settings : GlobalSettings real) (l : Limits real) (p : Planner real) (b : PlanBlock real)
      → let t = timed_block real settings l p b in
        (t.steps ≡ b.steps)
        × (t.step_event_count ≡ b.step_event_count)
        × (t.direction_bits ≡ b.direction_bits)
  unfolding timed_block
  timed_steps settings l p b = (ground arith, ground arith, ground arith)

  module _ (settings : GlobalSettings real) (target : Vec R) (feed_rate : R)
      (invert_feed_rate : Bool) (p : Planner real) where
    abbrev pub distance : Vec ℤ
    distance = steps_to real p.pl.position (target_steps real settings target)

    abbrev pub measured : PlanBlock real
    measured = measured_block real settings distance (block_at real p p.head)

    abbrev pub buffered : PlanBlock real
    buffered = block_at real (buffer_block real settings target feed_rate invert_feed_rate p) p.head

    buffered_steps :
        p.head < length p.block_buffer
        → 0 < measured.step_event_count
        → (buffered.steps ≡ measured.steps)
          × (buffered.step_event_count ≡ measured.step_event_count)
          × (buffered.direction_bits ≡ measured.direction_bits)
    unfolding buffer_block
    buffered_steps room some_steps =
        let l =
          limits_of real settings distance p.pl.previous_unit_vec
            (adjusted_rate real feed_rate invert_feed_rate measured.millimeters) measured in
        let there =
          stored_block (target_steps real settings target) l.unit_vec measured
            (timed_block real settings l p measured) p room some_steps in
        let (a, b, c) = timed_steps settings l p measured in
        (
          ap (λ (x : PlanBlock real). x.steps) there ∙ a,
          ap (λ (x : PlanBlock real). x.step_event_count) there ∙ b,
          ap (λ (x : PlanBlock real). x.direction_bits) there ∙ c,
        )

    -- A line has some steps, fewer than 2^27 events, and a free cell in the planner's ring. Its block is
    -- loaded for the stepper, and the interrupt runs from the block's first event on, the main
    -- program filling the buffers between any two events. Once the segments make up the block's
    -- step events, each motor has moved by the steps that `plan_buffer_line` computed for it, backwards
    -- where the signed distance was negative.
    pub plan_buffer_line-moves :
        (j : ℕ) (z : Vec ℤ) (s : Stepper)
        → p.head < length p.block_buffer
        → 0 < measured.step_event_count
        → measured.step_event_count < 2 ^ 27
        → Run
            (scaled_block buffered.direction_bits buffered.steps buffered.step_event_count)
            j
            z
            (measured.step_event_count * 8)
            s
        → (s.position.x
            ≡ moved
                ((is_backwards settings distance).x)
                ((motor_steps real settings distance).x)
                z.x)
          × (s.position.y
              ≡ moved
                  ((is_backwards settings distance).y)
                  ((motor_steps real settings distance).y)
                  z.y)
          × (s.position.z
              ≡ moved
                  ((is_backwards settings distance).z)
                  ((motor_steps real settings distance).z)
                  z.z)
    plan_buffer_line-moves j z s room some_steps fits r =
        let m = measured in
        let old = block_at real p p.head in
        let (steps, count, bits) = buffered_steps room some_steps in
        let same : scaled_block buffered.direction_bits buffered.steps buffered.step_event_count
            ≡ scaled_block m.direction_bits m.steps m.step_event_count =
          cc (steps, count, bits) in
        let (le_x, le_y, le_z) = measured_steps_le settings distance old in
        let (made_x, made_y, made_z) =
          planned_steps_made m.direction_bits m.steps m.step_event_count j z s some_steps fits le_x
            le_y le_z (subst (λ b. Run b j z (m.step_event_count * 8) s) same r) in
        let (back_x, back_y, back_z) = measured_bits settings distance old in
        let motors = measured_motors settings distance old in
        (
          made_x ∙ ap₂ (λ b n. moved b n z.x) back_x (ap (λ v. v.x) motors),
          made_y ∙ ap₂ (λ b n. moved b n z.y) back_y (ap (λ v. v.y) motors),
          made_z ∙ ap₂ (λ b n. moved b n z.z) back_z (ap (λ v. v.z) motors),
        )
