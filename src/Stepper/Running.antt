-- ===== src/Stepper/Running.antt =====
-- The step interrupt keeps the rings of the stepper driver valid.
use cpcbm.Base.{
  ℕ, ◌≡◌, refl, subst, sym, ap, ◌∙◌, arith, Bool, true, false, Option, none, some, ◌∷◌, length,
  ◌==◌, Bool-cases, inl, inr, if◌then◌else◌,
}
use cpcbm.Probe.{Readings}
use cpcbm.Ring.Count.{next, next-lt}
use cpcbm.Stepper.{
  Stepper, segment_buffer_size, segment_at, load_segment, step_event, with_segment, main_timer_isr,
  st_go_idle,
}
use cpcbm.Stepper.Recent.{Recent}
use cpcbm.Stepper.Kept.{View, IsFilling, waiting}
use cpcbm.Stepper.Feeds.{IsWaiting, waiting_is, behind}
use cpcbm.Stepper.Rings.{SameRings, Stepped, same-IsFilling, step_event-Stepped, load_segment-same}

-- The rings are valid, and the segment that is executed is the oldest one that waits.
pub record IsRunning (v : View) : Type 0 where
  pub filling : IsFilling v
  pub executes : (i : ℕ) → v.stepper.exec_segment ≡ some i → i ≡ v.stepper.segment_buffer_tail
  pub waits : (i : ℕ) → v.stepper.exec_segment ≡ some i → IsWaiting v.stepper

-- The rings and the segment that is executed are the same.
pub same-IsRunning :
    (v : View) (t : Stepper)
    → SameRings v.stepper t
    → t.exec_segment ≡ v.stepper.exec_segment
    → IsRunning v
    → IsRunning (record v { stepper = t })
same-IsRunning v t h e r = record {
  filling = same-IsFilling v t h r.filling;
  executes = λ i x. r.executes i (sym e ∙ x) ∙ sym h.tail_is_same;
  waits = λ i x. rw (h.head_same, h.tail_is_same) (r.waits i (sym e ∙ x));
}

either-IsRunning :
    (v : View) (b : Bool) (s t : Stepper)
    → IsRunning (record v { stepper = s })
    → IsRunning (record v { stepper = t })
    → IsRunning (record v { stepper = if b then s else t })
either-IsRunning v true s t h k = h
either-IsRunning v false s t h k = k

-- The rest of the segments, once the oldest one has ended.
behind-IsFilling :
    (v : View) (t : Stepper)
    → IsFilling v
    → IsWaiting v.stepper
    → t.segment_buffer ≡ v.stepper.segment_buffer
    → t.segment_buffer_head ≡ v.stepper.segment_buffer_head
    → t.segment_buffer_tail ≡ next segment_buffer_size v.stepper.segment_buffer_tail
    → IsFilling (record v { stepper = t })
behind-IsFilling v t f waits buffer head tail = record {
  storage = ap length buffer ∙ f.storage;
  head_in = rw head f.head_in;
  tail_in = rw tail (next-lt segment_buffer_size v.stepper.segment_buffer_tail f.tail_in);
  next_is = f.next_is ∙ ap (next segment_buffer_size) (sym head);
  index_in = f.index_in;
  recent = rw rest later.2;
}
  where
    rest : waiting t ≡ behind v.stepper
    rest = cc (buffer, head, tail)

    later :
        Recent v.index
          (if v.is_begun then 1 else 0)
          (segment_at v.stepper v.stepper.segment_buffer_tail ∷ behind v.stepper)
    later = subst (Recent v.index (if v.is_begun then 1 else 0)) (waiting_is v f waits) f.recent

-- An event of the oldest segment.
event-IsRunning :
    (v : View) (t : Stepper)
    → Stepped v.stepper t
    → IsFilling v
    → IsWaiting v.stepper
    → ((i : ℕ) → v.stepper.exec_segment ≡ some i → i ≡ v.stepper.segment_buffer_tail)
    → IsRunning (record v { stepper = t })
event-IsRunning v t event f waits executes = elim event.goes_on [
  | inl (ends, tail) ↦ record {
    filling = behind-IsFilling v t f waits event.buffer_same event.head_same tail;
    executes = λ i x. absurd (cc (ends, x));
    waits = λ i x. absurd (cc (ends, x));
  }
  | inr (same, tail) ↦
      same-IsRunning v t
        (record {
          buffer_same = event.buffer_same;
          head_same = event.head_same;
          tail_is_same = tail;
        })
        same (record { filling = f; executes = executes; waits = λ i x. waits })
]

-- The oldest segment is loaded.
load_segment-IsRunning :
    (v : View)
    → IsFilling v
    → IsWaiting v.stepper
    → IsRunning (record v { stepper = load_segment v.stepper })
load_segment-IsRunning v f waits =
    let (rings, executed) = load_segment-same v.stepper in
    record {
      filling = same-IsFilling v (load_segment v.stepper) rings f;
      executes = λ i x. cc (executed, x, rings.tail_is_same);
      waits = λ i x. rw (rings.head_same, rings.tail_is_same) waits;
    }

pub st_go_idle-IsRunning :
    (v : View)
    → IsRunning v
    → IsRunning (record v { stepper = record (st_go_idle v.stepper) { cycle_stop = true } })
unfolding st_go_idle
st_go_idle-IsRunning v h =
    same-IsRunning v (record (st_go_idle v.stepper) { cycle_stop = true })
      (record { buffer_same = refl; head_same = refl; tail_is_same = refl }) refl h

with_segment-IsRunning :
    (v : View) (pins : Readings) (o : Option ℕ)
    → v.stepper.exec_segment ≡ o
    → IsRunning v
    → IsRunning (record v { stepper = with_segment pins o v.stepper })
with_segment-IsRunning v pins (some i) e h =
    event-IsRunning v (step_event pins v.stepper) (step_event-Stepped pins v.stepper) h.filling
      (h.waits i e) h.executes
with_segment-IsRunning v pins none e h =
    let s = v.stepper in
    elim (Bool-cases (s.segment_buffer_head == s.segment_buffer_tail)) [
      | inl same ↦
          subst
            (λ b. IsRunning (record v {
              stepper =
                  if b
                  then record (st_go_idle s) { cycle_stop = true }
                  else step_event pins (load_segment s);
            }))
            (sym same) (st_go_idle-IsRunning v h)
      | inr apart ↦
          let loaded = load_segment-IsRunning v h.filling (λ e. ground (arith, apart, e)) in
          let w = record v { stepper = load_segment s } in
          subst
            (λ b. IsRunning (record v {
              stepper =
                  if b
                  then record (st_go_idle s) { cycle_stop = true }
                  else step_event pins (load_segment s);
            }))
            (sym apart)
            (event-IsRunning w (step_event pins w.stepper) (step_event-Stepped pins w.stepper)
              loaded.filling (loaded.waits s.segment_buffer_tail (load_segment-same s).1)
              loaded.executes)
    ]

pub main_timer_isr-IsRunning :
    (v : View) (pins : Readings)
    → IsRunning v
    → IsRunning (record v { stepper = main_timer_isr pins v.stepper })
unfolding main_timer_isr
main_timer_isr-IsRunning v pins h =
    let s = v.stepper in
    let marked = record s {
      direction_port = s.dir_outbits;
      step_port = s.step_outbits;
      busy = true;
    } in
    let event : IsRunning (record v { stepper = with_segment pins s.exec_segment marked }) =
      with_segment-IsRunning (record v { stepper = marked }) pins s.exec_segment refl
        (same-IsRunning v marked
          (record { buffer_same = refl; head_same = refl; tail_is_same = refl }) refl h) in
    either-IsRunning v s.busy s (with_segment pins s.exec_segment marked) h event
