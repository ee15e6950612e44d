-- ===== src/Planner/Pushed.antt =====
-- The last block, which `plan_buffer_line` has put into the ring: whatever its entry speed was.
use cpcbm.Base.{ℕ, suc, ◌≡◌, ◌<◌, ◌∙◌, arith, inl, inr, Bool-cases, ◌==◌, ==→eq}
use cpcbm.Base.Real.{Real}
use cpcbm.Planner.Profile.{
  Le, Order, Profile, CanStop, CanReach, Changed-CanReach, le_refl, entry_at, entry_other,
}
use cpcbm.Planner.Recalculate.{Plan, set_entry_speed, plan_last}
use cpcbm.Planner.Speeds.{index, profile, IsAt, IsSlow, set_entry-Changed, set_entry-IsAt}
use cpcbm.Planner.Reverse.{IsPlanned}

module _ (real : Real) (b : Profile real) where
  open real use {R, decimal, add, mul, lt, eq}

  -- There are `n` blocks from which the machine can stop, up to the planned pointer they can be
  -- reached, and one block is new. The entry speed of the new block is left from an earlier block.
  pub record IsPushed (s : Plan real) (t q n : ℕ) : Type 0 where
    pub ring : IsAt real s.planner t q (suc n)
    pub behind : q < n
    pub can_stop : CanStop real b (profile real t s.planner) n
    pub can_reach : CanReach real (profile real t s.planner) q
    pub slow : IsSlow real s t n
    pub new_limit : (profile real t s.planner).limit n ≡ b.limit n
    pub new_change : (profile real t s.planner).change n ≡ b.change n
    pub limit_positive : Le real (decimal 0 0) ((profile real t s.planner).limit n)
    pub change_positive : Le real (decimal 0 0) ((profile real t s.planner).change n)

  module _ (order : Order real) where
    -- The last block's speed becomes one from which the machine can stop.
    last_speed :
        (s : Plan real) {t q n : ℕ} (v : R)
        → IsPushed s t q n
        → Le real v ((profile real t s.planner).limit n)
        → Le real v ((profile real t s.planner).change n)
        → Le real (decimal 0 0) v
        → IsPlanned real b (set_entry_speed real (index t n) v s) t q (suc n)
    last_speed s {t} {q} {n} v h under stops positive =
        let f = profile real t s.planner in
        let c = set_entry-Changed real s n v h.ring (omega arith) in
        record {
          ring = set_entry-IsAt real s (index t n) v h.ring;
          can_stop = record {
            same_limit =
                λ o l. c.limit_same o l ∙ ground (arith, h.can_stop.same_limit o, h.new_limit);
            same_change =
                λ o l. c.change_same o l ∙ ground (arith, h.can_stop.same_change o, h.new_change);
            limited = λ o p l.
                ground (
                  arith,
                  c.entry_is o l,
                  c.limit_same o l,
                  h.can_stop.limited o p,
                  ==→eq o n,
                  under,
                );
            slows = λ o l.
                rw
                  (
                    c.change_same o (omega arith),
                    entry_other real c o (omega arith) (λ x. omega (arith, x)),
                  )
                  (elim (Bool-cases (suc o == n)) [
                    | inl e ↦
                        (let last = ==→eq (suc o) n e in
                          rw (last, entry_at real c (omega arith))
                            (order.le_trans (h.can_stop.stops o last)
                              (order.more_add (f.change o) positive)))
                    | inr e ↦
                        rw (entry_other real c (suc o) l (ground arith))
                          (h.can_stop.slows o (ground arith))
                  ]);
            stops = λ o e.
                (let last : o ≡ n = omega (arith, e) in
                  rw (last, entry_at real c (omega arith), c.change_same n (omega arith)) stops);
            moves = λ o l. rw (c.change_same o l) (elim (Bool-cases (o == n)) [
              | inl e ↦ rw (==→eq o n e) h.change_positive
              | inr e ↦ h.can_stop.moves o (ground arith)
            ]);
          };
          can_reach = Changed-CanReach real c q h.behind (omega arith) h.can_reach;
          slow = λ i x. (
            (h.slow i x).0,
            record {
              limited = λ p. absurd (omega (arith, p));
              slows = λ l. rw (c.change_same 0 (omega arith)) (elim (Bool-cases (1 == n)) [
                | inl e ↦
                    (let last = ==→eq 1 n e in
                      rw (last, entry_at real c (omega arith))
                        (order.le_trans ((h.slow i x).1.stops last)
                          (order.more_add (f.change 0) positive)))
                | inr e ↦
                    rw (entry_other real c 1 l (ground arith))
                      ((h.slow i x).1.slows (ground (arith, h.behind)))
              ]);
              stops = λ e. absurd (omega (arith, e, h.behind));
              reached = λ o e. absurd (omega (arith, e));
            },
          );
        }

    pub plan_last-IsPushed :
        (s : Plan real) {t q n : ℕ}
        → IsPushed s t q n
        → IsPlanned real b (plan_last real (index t n) s) t q (suc n)
    unfolding plan_last
    plan_last-IsPushed s {t} {q} {n} h =
        let f = profile real t s.planner in
        elim (Bool-cases (lt (f.limit n) (f.change n))) [
          | inl x ↦ rw x (
              last_speed s (f.limit n) h (le_refl real order (f.limit n)) (order.lt_asym x)
                h.limit_positive)
          | inr x ↦
              rw x
                (last_speed s (f.change n) h x (le_refl real order (f.change n)) h.change_positive)
        ]
