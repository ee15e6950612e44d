-- ===== src/Stepper/Rings.antt =====
-- What the parts of the step interrupt do to the two rings.
use cpcbm.Base.{
  ◌≡◌, refl, sym, ap, ◌∙◌, none, some, length, ◌==◌, Bool-cases, inl, inr, ◌⊎◌, ◌+◌, ◌%◌,
}
use cpcbm.Base.Bits.{no_bits}
use cpcbm.Base.Real.{x_axis, y_axis, z_axis}
use cpcbm.Probe.{Readings, probe_state_monitor}
use cpcbm.Ring.Count.{next}
use cpcbm.Stepper.{
  Stepper, Segment, segment_buffer_size, segment_at, load_segment, trace_axis, end_event,
  step_event, start_block,
}
use cpcbm.Stepper.Kept.{View, IsFilling, waiting}

-- Another state of the interrupt with the same rings.
pub record SameRings (s t : Stepper) : Type 0 where
  pub buffer_same : t.segment_buffer ≡ s.segment_buffer
  pub head_same : t.segment_buffer_head ≡ s.segment_buffer_head
  pub tail_is_same : t.segment_buffer_tail ≡ s.segment_buffer_tail

same-waiting : {s t : Stepper} → SameRings s t → waiting t ≡ waiting s
same-waiting h = cc (h.buffer_same, h.head_same, h.tail_is_same)

pub same-IsFilling :
    (v : View) (t : Stepper)
    → SameRings v.stepper t
    → IsFilling v
    → IsFilling (record v { stepper = t })
same-IsFilling v t h f = record {
  storage = ap length h.buffer_same ∙ f.storage;
  head_in = rw h.head_same f.head_in;
  tail_in = rw h.tail_is_same f.tail_in;
  next_is = f.next_is ∙ ap (next segment_buffer_size) (sym h.head_same);
  index_in = f.index_in;
  recent = rw (same-waiting h) f.recent;
}

-- What an event does to the rings.
pub record Stepped (s t : Stepper) : Type 0 where
  pub buffer_same : t.segment_buffer ≡ s.segment_buffer
  pub head_same : t.segment_buffer_head ≡ s.segment_buffer_head
  pub goes_on :
      ((t.exec_segment ≡ none)
        × (t.segment_buffer_tail ≡ next segment_buffer_size s.segment_buffer_tail))
      ⊎ ((t.exec_segment ≡ s.exec_segment) × (t.segment_buffer_tail ≡ s.segment_buffer_tail))

end_event-Stepped : (s : Stepper) → Stepped s (end_event s)
unfolding end_event next
end_event-Stepped s = record {
  buffer_same = refl;
  head_same = refl;
  goes_on = elim (Bool-cases ((s.step_count + 65535) % 65536 == 0)) [
    | inl e ↦ inl (rw e refl, rw e refl)
    | inr e ↦ inr (rw e refl, rw e refl)
  ];
}

pub step_event-Stepped : (pins : Readings) (s : Stepper) → Stepped s (step_event pins s)
unfolding step_event trace_axis
step_event-Stepped pins s =
    let ended = end_event-Stepped (
      trace_axis z_axis (
        trace_axis y_axis (
          trace_axis x_axis (record s {
            probe = probe_state_monitor pins s.position s.probe;
            step_outbits = no_bits;
          })))) in
    record { buffer_same = ended.buffer_same; head_same = ended.head_same; goes_on = ended.goes_on }

start_block-same :
    (segment : Segment) (s : Stepper)
    → SameRings s (start_block segment s) × ((start_block segment s).exec_segment ≡ s.exec_segment)
start_block-same segment s = elim (Bool-cases (s.exec_block_index == segment.st_block_index)) [
  | inl e ↦ (
    record { buffer_same = rw e refl; head_same = rw e refl; tail_is_same = rw e refl },
    rw e refl,
  )
  | inr e ↦ (
    record { buffer_same = rw e refl; head_same = rw e refl; tail_is_same = rw e refl },
    rw e refl,
  )
]

pub load_segment-same :
    (s : Stepper)
    → SameRings s (load_segment s) × ((load_segment s).exec_segment ≡ some s.segment_buffer_tail)
unfolding load_segment
load_segment-same s =
    let segment = segment_at s s.segment_buffer_tail in
    let (rings, executed) = start_block-same segment (record s {
      exec_segment = some s.segment_buffer_tail;
      timer_period = segment.cycles_per_tick;
      step_count = segment.n_step;
    }) in
    (
      record {
        buffer_same = rings.buffer_same;
        head_same = rings.head_same;
        tail_is_same = rings.tail_is_same;
      },
      executed,
    )
