-- ===== src/Stepper/Kept.antt =====
-- What the filling of the buffers does to the rings: the steps of it, on the part of the state that
-- they concern.
use cpcbm.Base.{
  ℕ, ◌+◌, ◌≡◌, ◌≢◌, ◌<◌, refl, sym, ap, ◌∙◌, arith, Bool, true, false, if◌then◌else◌, List, [], ◌∷◌,
  ◌++◌, length-append, length, set, get_or-set_ne, inl, inr, Bool-cases, length-set,
}
use mathlib.Core.List.{append-nil, append_assoc}
use cpcbm.Ring.Count.{next, next-lt, used-lt, used-next_head}
use cpcbm.Ring.Contents.{contents, contents-push, contents-set, length-contents}
use cpcbm.Stepper.{
  StBlock, Segment, Stepper, st_block_at, segment_buffer_size, zero_st_block, zero_segment,
}
use cpcbm.Stepper.Recent.{
  blocks, Recent, Uses, Uses-append, Recent-weaken, Recent-push, Recent-next, next_unused,
}

-- The interrupt's state, `segment_next_head`, `prep.st_block_index`, and whether the planner's block has
-- been begun.
pub record View : Type 0 where
  pub stepper : Stepper
  pub next_head : ℕ
  pub index : ℕ
  pub is_begun : Bool

-- The segments in the ring, oldest first.
abbrev pub waiting : Stepper → List Segment
waiting s =
    contents segment_buffer_size zero_segment s.segment_buffer s.segment_buffer_head
      s.segment_buffer_tail

-- The rings between two rounds. A block that is not begun has had all its segments.
pub record IsFilling (v : View) : Type 0 where
  pub storage : length v.stepper.segment_buffer ≡ segment_buffer_size
  pub head_in : v.stepper.segment_buffer_head < segment_buffer_size
  pub tail_in : v.stepper.segment_buffer_tail < segment_buffer_size
  pub next_is : v.next_head ≡ next segment_buffer_size v.stepper.segment_buffer_head
  pub index_in : v.index < blocks
  pub recent : Recent v.index (if v.is_begun then 1 else 0) (waiting v.stepper)

-- What the interrupt uses is as before, but for new segments behind those that wait.
pub record Kept (s t : Stepper) : Type 0 where
  pub rest_same : t ≡ record s {
    st_block_buffer = t.st_block_buffer;
    segment_buffer = t.segment_buffer;
    segment_buffer_head = t.segment_buffer_head;
  }
  pub more : List Segment
  pub extends : waiting t ≡ waiting s ++ more
  pub blocks_same : (j : ℕ) → Uses j (waiting s) → st_block_at t j ≡ st_block_at s j

pub self-Kept : (s : Stepper) → Kept s s
self-Kept s = record {
  rest_same = refl;
  more = [];
  extends = sym (append-nil (waiting s));
  blocks_same = λ j u. refl;
}

pub chain-Kept : (s t u : Stepper) → Kept s t → Kept t u → Kept s u
chain-Kept s t u h k = record {
  rest_same =
      k.rest_same
      ∙ ap {A = Stepper} {B = Stepper}
          (λ x. record x {
            st_block_buffer = u.st_block_buffer;
            segment_buffer = u.segment_buffer;
            segment_buffer_head = u.segment_buffer_head;
          })
          h.rest_same;
  more = h.more ++ k.more;
  extends = k.extends ∙ ap (λ x. x ++ k.more) h.extends ∙ append_assoc (waiting s) h.more k.more;
  blocks_same = λ j use_it.
      k.blocks_same j (rw h.extends (Uses-append j (waiting s) h.more use_it))
      ∙ h.blocks_same j use_it;
}

-- Room for a segment.
abbrev pub HasRoom : View → Type 0
HasRoom v = v.next_head ≢ v.stepper.segment_buffer_tail

pub few_waiting : (v : View) → IsFilling v → length (waiting v.stepper) < segment_buffer_size
few_waiting v h =
    rw
      (length-contents segment_buffer_size zero_segment v.stepper.segment_buffer
        v.stepper.segment_buffer_head v.stepper.segment_buffer_tail)
      (used-lt segment_buffer_size v.stepper.segment_buffer_head v.stepper.segment_buffer_tail
        h.head_in h.tail_in)

-- A block that is new to the stepper.
abbrev pub loaded_view : StBlock → View → View
loaded_view b v = record v {
  stepper = record v.stepper {
    st_block_buffer = set v.stepper.st_block_buffer (next blocks v.index) b;
  };
  index = next blocks v.index;
  is_begun = true;
}

-- A segment in the free cell at the head, which stays free.
abbrev pub touched_view : Segment → View → View
touched_view g v = record v {
  stepper = record v.stepper {
    segment_buffer = set v.stepper.segment_buffer v.stepper.segment_buffer_head g;
  };
}

-- A new segment.
abbrev pub pushed_view : Segment → Bool → View → View
pushed_view g begun v = record v {
  stepper = record v.stepper {
    segment_buffer = set v.stepper.segment_buffer v.stepper.segment_buffer_head g;
    segment_buffer_head = v.next_head;
  };
  next_head = next segment_buffer_size v.next_head;
  is_begun = begun;
}

pub room_count : (v : View) → IsFilling v → HasRoom v → length (waiting v.stepper) < blocks
room_count v h room =
    let stepper = v.stepper in
    let free : next segment_buffer_size stepper.segment_buffer_head ≢ stepper.segment_buffer_tail =
      λ e. room (h.next_is ∙ e) in
    omega (
      arith,
      length-contents segment_buffer_size zero_segment stepper.segment_buffer
          stepper.segment_buffer_head stepper.segment_buffer_tail,
      used-next_head segment_buffer_size stepper.segment_buffer_head stepper.segment_buffer_tail
          h.head_in h.tail_in free,
      used-lt segment_buffer_size (next segment_buffer_size stepper.segment_buffer_head)
          stepper.segment_buffer_tail
          (next-lt segment_buffer_size stepper.segment_buffer_head h.head_in) h.tail_in,
    )

pub loaded-IsFilling :
    (b : StBlock) (v : View)
    → IsFilling v
    → HasRoom v
    → v.is_begun ≡ false
    → IsFilling (loaded_view b v) × Kept v.stepper ((loaded_view b v).stepper)
loaded-IsFilling b v h room e =
    let recent : Recent v.index 0 (waiting v.stepper) = rw e at h.recent in
    let few = room_count v h room in
    (
      record {
        storage = h.storage;
        head_in = h.head_in;
        tail_in = h.tail_in;
        next_is = h.next_is;
        index_in = next-lt blocks v.index h.index_in;
        recent = Recent-next v.index (waiting v.stepper) h.index_in few recent;
      },
      record {
        rest_same = refl;
        more = [];
        extends = sym (append-nil (waiting v.stepper));
        blocks_same = λ j u.
            get_or-set_ne v.stepper.st_block_buffer (next blocks v.index) j b zero_st_block
              (next_unused v.index j (waiting v.stepper) h.index_in few recent u);
      },
    )

pub touched-IsFilling :
    (g : Segment) (v : View)
    → IsFilling v
    → IsFilling (touched_view g v)
      × Kept v.stepper ((touched_view g v).stepper)
      × (length (waiting ((touched_view g v).stepper)) ≡ length (waiting v.stepper))
touched-IsFilling g v h =
    let same : waiting ((touched_view g v).stepper) ≡ waiting v.stepper =
      contents-set segment_buffer_size zero_segment v.stepper.segment_buffer
        v.stepper.segment_buffer_head v.stepper.segment_buffer_tail g h.head_in h.tail_in in
    (
      record {
        storage = length-set v.stepper.segment_buffer v.stepper.segment_buffer_head g ∙ h.storage;
        head_in = h.head_in;
        tail_in = h.tail_in;
        next_is = h.next_is;
        index_in = h.index_in;
        recent = rw same h.recent;
      },
      record {
        rest_same = refl;
        more = [];
        extends = same ∙ sym (append-nil (waiting v.stepper));
        blocks_same = λ j u. refl;
      },
      ap length same,
    )

weakly-Recent : (v : View) → IsFilling v → Recent v.index 1 (waiting v.stepper)
weakly-Recent v h = elim (Bool-cases v.is_begun) [
  | inl e ↦ rw e at h.recent
  | inr e ↦ Recent-weaken v.index 0 (waiting v.stepper) (rw e at h.recent)
]

strongly-Recent :
    (begun : Bool) (index : ℕ) (gs : List Segment)
    → Recent index 0 gs
    → Recent index (if begun then 1 else 0) gs
strongly-Recent true index gs r = Recent-weaken index 0 gs r
strongly-Recent false index gs r = r

pub pushed-IsFilling :
    (g : Segment) (begun : Bool) (v : View)
    → IsFilling v
    → HasRoom v
    → g.st_block_index ≡ v.index
    → IsFilling (pushed_view g begun v)
      × Kept v.stepper ((pushed_view g begun v).stepper)
      × (length (waiting ((pushed_view g begun v).stepper)) ≡ length (waiting v.stepper) + 1)
pushed-IsFilling g begun v h room e =
    let stepper = v.stepper in
    let next_in = next-lt segment_buffer_size stepper.segment_buffer_head h.head_in in
    let longer : waiting ((pushed_view g begun v).stepper) ≡ waiting stepper ++ (g ∷ []) =
      rw h.next_is (
        contents-push segment_buffer_size zero_segment stepper.segment_buffer
          stepper.segment_buffer_head stepper.segment_buffer_tail g (omega (arith, h.storage))
          h.head_in h.tail_in (λ q. room (h.next_is ∙ q))) in
    (
      record {
        storage = length-set stepper.segment_buffer stepper.segment_buffer_head g ∙ h.storage;
        head_in = rw h.next_is next_in;
        tail_in = h.tail_in;
        next_is = refl;
        index_in = h.index_in;
        recent = rw longer (
            strongly-Recent begun v.index (waiting stepper ++ (g ∷ []))
              (Recent-push v.index (waiting stepper) g h.index_in e (weakly-Recent v h)));
      },
      record { rest_same = refl; more = g ∷ []; extends = longer; blocks_same = λ j u. refl },
      ap length longer ∙ length-append (waiting stepper) (g ∷ []),
    )

-- A block that counts as begun as before.
pub marked-IsFilling :
    (v : View) (b : Bool) → b ≡ v.is_begun → IsFilling v → IsFilling (record v { is_begun = b })
marked-IsFilling v b e h = record {
  storage = h.storage;
  head_in = h.head_in;
  tail_in = h.tail_in;
  next_is = h.next_is;
  index_in = h.index_in;
  recent = rw e h.recent;
}
