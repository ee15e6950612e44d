-- ===== src/Planner/Forward.antt =====
-- The forward pass of `planner_recalculate`: each speed can be reached.
use cpcbm.Base.{
  ℕ, zero, suc, ◌+◌, ◌≡◌, ◌<◌, ◌≤◌, refl, ap, ◌∙◌, arith, some, ◌⊎◌, inl, inr, Bool-cases, ◌==◌,
  ==→eq,
}
use cpcbm.Base.Real.{Real}
use cpcbm.Planner.{block_buffer_size, plan_prev_block_index}
use cpcbm.Planner.Profile.{
  Le, Order, Profile, CanStop, CanReach, Changed-CanStop, Changed-CanReach, le_refl, entry_at,
  entry_other,
}
use cpcbm.Planner.Recalculate.{
  Plan, set_entry_speed, set_planned, plan_last, reach_entry, mark_maximum, forward_pass,
  forward_from, planner_recalculate,
}
use cpcbm.Planner.Speeds.{
  index, prev-index, next-index, profile, IsAt, set_entry-Changed, set_entry-IsAt,
}
use cpcbm.Planner.Reverse.{IsPlanned, reverse_whole, plan_last-IsPlanned}
use cpcbm.Planner.Pushed.{IsPushed, plan_last-IsPushed}

module _ (real : Real) (b : Profile real) where
  open real use {R, decimal, add, mul, lt, eq}

  -- The forward pass at block `k`: the blocks up to it can be reached.
  pub record IsReached (s : Plan real) (t k n : ℕ) : Type 0 where
    pub pointer : ℕ
    pub ring : IsAt real s.planner t pointer n
    pub can_stop : CanStop real b (profile real t s.planner) n
    pub can_reach : CanReach real (profile real t s.planner) k

  module _ (order : Order real) where
    lower-IsReached :
        (s : Plan real) {t n : ℕ} (k : ℕ)
        → IsReached s t k n
        → suc k < n
        → Le real
            (add ((profile real t s.planner).entry k) ((profile real t s.planner).change k))
            ((profile real t s.planner).entry (suc k))
        → IsReached
            (set_entry_speed real
              (index t (suc k))
              (add ((profile real t s.planner).entry k) ((profile real t s.planner).change k))
              s)
            t
            (suc k)
            n
    lower-IsReached s {t} {n} k h l lower =
        let f = profile real t s.planner in
        let v = add (f.entry k) (f.change k) in
        let c = set_entry-Changed real s (suc k) v h.ring l in
        record {
          pointer = h.pointer;
          ring = set_entry-IsAt real s (index t (suc k)) v h.ring;
          can_stop =
              Changed-CanStop real c
                (record {
                  limited = λ p. order.le_trans lower (h.can_stop.limited (suc k) p l);
                  slows = λ l2. order.le_trans lower (h.can_stop.slows (suc k) l2);
                  stops = λ e. order.le_trans lower (h.can_stop.stops (suc k) e);
                  reached = λ o e.
                      (let o_is : o ≡ k = omega (arith, e) in
                        let more = h.can_stop.moves k (omega arith) in
                        rw o_is (
                          order.le_trans (order.add_more (f.entry k) more)
                            (order.add_more v more)));
                })
                h.can_stop;
          can_reach = λ o lo. elim (Bool-cases (o == k)) [
            | inl e ↦
                rw
                  (
                    ==→eq o k e,
                    entry_at real c l,
                    entry_other real c k (omega arith) (λ x. omega (arith, x)),
                    c.change_same k (omega arith),
                  )
                  (le_refl real order v)
            | inr e ↦ Changed-CanReach real c k (omega arith) l h.can_reach o (ground arith)
          ];
        }

    next-IsReached :
        (s : Plan real) {t n : ℕ} (k : ℕ)
        → IsReached s t k n
        → Le real
            ((profile real t s.planner).entry (suc k))
            (add ((profile real t s.planner).entry k) ((profile real t s.planner).change k))
        → IsReached s t (suc k) n
    next-IsReached s {t} k h here = record {
      pointer = h.pointer;
      ring = h.ring;
      can_stop = h.can_stop;
      can_reach = λ o lo. elim (Bool-cases (o == k)) [
        | inl e ↦ rw (==→eq o k e) here
        | inr e ↦ h.can_reach o (ground arith)
      ];
    }

    planned-IsReached :
        (s : Plan real) {t k n : ℕ} (q : ℕ)
        → IsReached s t k n
        → q < n
        → IsReached (set_planned real (index t q) s) t k n
    planned-IsReached s {t} q h l = record {
      pointer = q;
      ring = record {
        tail_is = h.ring.tail_is;
        storage = h.ring.storage;
        size = h.ring.size;
        tail_in = h.ring.tail_in;
        head_is = h.ring.head_is;
        planned_is = refl;
        planned_in = l;
      };
      can_stop = h.can_stop;
      can_reach = h.can_reach;
    }

    reach_entry-IsReached :
        (s : Plan real) {t n : ℕ} (k : ℕ)
        → IsReached s t k n
        → suc k < n
        → IsReached (reach_entry real (index t k) (index t (suc k)) s) t (suc k) n
    unfolding reach_entry
    reach_entry-IsReached s {t} {n} k h l =
        let f = profile real t s.planner in
        let v = add (f.entry k) (f.change k) in
        elim (Bool-cases (lt (f.entry k) (f.entry (suc k)))) [
          | inl e ↦ elim (Bool-cases (lt v (f.entry (suc k)))) [
            | inl x ↦
                rw (e, x)
                  (planned-IsReached (set_entry_speed real (index t (suc k)) v s) (suc k)
                    (lower-IsReached s k h l (order.lt_asym x)) l)
            | inr x ↦ rw (e, x) (next-IsReached s k h x)
          ]
          | inr e ↦ rw e (
              next-IsReached s k h
                (order.le_trans e (order.add_more (f.entry k) (h.can_stop.moves k (omega arith)))))
        ]

    mark_maximum-IsReached :
        (s : Plan real) {t k n : ℕ} (q : ℕ)
        → IsReached s t k n
        → q < n
        → IsReached (mark_maximum real (index t q) s) t k n
    unfolding mark_maximum
    mark_maximum-IsReached s {t} q h l =
        elim (Bool-cases
          (eq ((profile real t s.planner).entry q) ((profile real t s.planner).limit q))) [
            | inl e ↦ rw e (planned-IsReached s q h l)
            | inr e ↦ rw e h
          ]

    forward_pass-IsReached :
        (fuel k : ℕ) (s : Plan real) {t n : ℕ}
        → IsReached s t k (suc n)
        → k ≤ n
        → n < k + fuel
        → (r : Plan real) × (forward_pass real fuel (index t (suc k)) (index t k) s ≡ some r)
          × IsReached r t n (suc n)
    unfolding forward_pass
    forward_pass-IsReached zero k s h l enough = absurd (omega arith)
    forward_pass-IsReached (suc fuel) k s {t} {n} h l enough =
        elim (Bool-cases (index t (suc k) == s.planner.head)) [
          | inl e ↦
              (let last : k ≡ n = ground (arith, h.ring.head_is, h.ring.size, ==→eq _ _ e) in
                rw e (s, refl, rw last at h))
          | inr e ↦
              (let more : suc k < suc n = ground (arith, h.ring.head_is) in
                rw (e, next-index t (suc k))
                  (forward_pass-IsReached fuel (suc k)
                    (mark_maximum real (index t (suc k))
                      (reach_entry real (index t k) (index t (suc k)) s))
                    (mark_maximum-IsReached (reach_entry real (index t k) (index t (suc k)) s)
                      (suc k) (reach_entry-IsReached s k h more) more)
                    (omega arith) (omega arith)))
        ]

    forward_from-IsReached :
        (s : Plan real) {t q n : ℕ}
        → IsPlanned real b s t q (suc n)
        → (r : Plan real) × (forward_from real s ≡ some r) × IsReached r t n (suc n)
    forward_from-IsReached s {t} {q} h =
        simp (h.ring.planned_is, next-index t q)
          (forward_pass-IsReached block_buffer_size q s
            (record { pointer = q; ring = h.ring; can_stop = h.can_stop; can_reach = h.can_reach })
            (omega (arith, h.ring.planned_in)) (omega (arith, h.ring.size)))

    whole-IsReached :
        (s : Plan real) {t q n : ℕ}
        → IsPlanned real b s t q (suc n)
        → q ≡ n
        → IsReached s t n (suc n)
    whole-IsReached s {t} {q} h e = record {
      pointer = q;
      ring = h.ring;
      can_stop = h.can_stop;
      can_reach = rw e at h.can_reach;
    }

    last-IsPlanned :
        (s : Plan real) {t q n : ℕ}
        → IsPlanned real b s t q (suc n) ⊎ IsPushed real b s t q n
        → q < n
        → IsPlanned real b (plan_last real (index t n) s) t q (suc n)
    last-IsPlanned s {n = n} (inl h) l = plan_last-IsPlanned real b order s n h l refl
    last-IsPlanned s (inr h) l = plan_last-IsPushed real b order s h

    done-IsReached :
        (s : Plan real) {t q n : ℕ}
        → IsPlanned real b s t q (suc n) ⊎ IsPushed real b s t q n
        → q ≡ n
        → IsReached s t n (suc n)
    done-IsReached s (inl h) e = whole-IsReached s h e
    done-IsReached s (inr h) e = absurd (omega (arith, h.behind, e))

    ring_of :
        {s : Plan real} {t q n : ℕ}
        → IsPlanned real b s t q (suc n) ⊎ IsPushed real b s t q n
        → IsAt real s.planner t q (suc n)
    ring_of (inl h) = h.ring
    ring_of (inr h) = h.ring

    -- The ring holds `n + 1` blocks, of which `q` are in front of the planned pointer. The speeds of
    -- all of them, or of all but a new last one, let the machine stop, those up to the planned
    -- pointer can be reached, and a block in execution can slow down to the next one from the machine's
    -- speed. Then the recalculation ends, with the same ring and the same limits: every speed but the
    -- first block's is within its limit, and every speed can be reached from the one before with the
    -- block's acceleration, and lets the machine slow down to the next one and stop at the end of the
    -- last block.
    pub planner_recalculate-IsReached :
        (s : Plan real) (t q n : ℕ)
        → IsPlanned real b s t q (suc n) ⊎ IsPushed real b s t q n
        → (r : Plan real) × (planner_recalculate real s ≡ some r) × IsReached r t n (suc n)
    unfolding planner_recalculate
    planner_recalculate-IsReached s t q n h =
        let ring = ring_of h in
        let last : plan_prev_block_index s.planner.head ≡ index t n =
          ap plan_prev_block_index ring.head_is ∙ prev-index t n in
        elim (Bool-cases (index t n == s.planner.planned)) [
          | inl e ↦
              rw (last, e)
                (
                  s,
                  refl,
                  done-IsReached s h
                      (ground (arith, ring.planned_is, ring.planned_in, ring.size, ==→eq _ _ e)),
                )
          | inr e ↦
              (let behind : q < n = ground (arith, ring.planned_is, ring.planned_in) in
                let (p, p_is, planned) =
                  reverse_whole real b order (plan_last real (index t n) s)
                    (last-IsPlanned s h behind) behind in
                rw (last, e, p_is) (forward_from-IsReached p planned))
        ]
