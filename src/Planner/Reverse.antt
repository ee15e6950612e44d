-- ===== src/Planner/Reverse.antt =====
-- The reverse pass of `planner_recalculate`: each speed lets the machine stop.
use cpcbm.Base.{
  ℕ, zero, suc, ◌+◌, ◌≡◌, ◌<◌, ◌≤◌, refl, ◌∙◌, arith, Option, none, some, inl, inr, Bool-cases,
  ◌==◌, ==→eq, eq→==,
}
use cpcbm.Base.Real.{Real}
use cpcbm.Planner.{block_buffer_size}
use cpcbm.Planner.Profile.{
  Le, Order, Profile, CanStop, CanReach, Fits, Changed-CanStop, Changed-CanReach, Changed-Fits,
  le_refl, higher-Fits,
}
use cpcbm.Planner.Recalculate.{
  Plan, set_entry_speed, update_block, st_update_plan_block_parameters, plan_last, plan_entry,
  update_if_tail, reverse_pass, reverse_from,
}
use cpcbm.Planner.Speeds.{
  index, prev-index, profile, IsAt, IsSlow, set_entry-Changed, set_entry-IsAt,
}

module _ (real : Real) (b : Profile real) where
  open real use {R, decimal, add, mul, lt, eq}

  -- The machine can follow the speeds up to the planned pointer, and can stop.
  pub record IsPlanned (s : Plan real) (t q n : ℕ) : Type 0 where
    pub ring : IsAt real s.planner t q n
    pub can_stop : CanStop real b (profile real t s.planner) n
    pub can_reach : CanReach real (profile real t s.planner) q
    pub slow : IsSlow real s t n

  module _ (order : Order real) where
    -- A block behind the planned pointer gets faster.
    raise-IsPlanned :
        (s : Plan real) {t q n : ℕ} (m : ℕ) (v : R)
        → IsPlanned s t q n
        → q < m
        → m < n
        → Fits real (profile real t s.planner) n m v
        → Le real ((profile real t s.planner).entry m) v
        → IsPlanned (set_entry_speed real (index t m) v s) t q n
    raise-IsPlanned s {t} {q} m v h lo l f e =
        let c = set_entry-Changed real s m v h.ring l in
        record {
          ring = set_entry-IsAt real s (index t m) v h.ring;
          can_stop = Changed-CanStop real c f h.can_stop;
          can_reach = Changed-CanReach real c q lo l h.can_reach;
          slow =
              λ i x. ((h.slow i x).0, Changed-Fits real c order (omega arith) l e ((h.slow i x).1));
        }

    pub update_block-IsPlanned :
        (s : Plan real) {t n : ℕ} (block : Option ℕ)
        → s.prep.pl_block ≡ block
        → IsPlanned s t 0 n
        → IsPlanned (update_block real block s) t 0 n
    update_block-IsPlanned s none e h = h
    update_block-IsPlanned s {t} (some i) e h =
        let v = mul s.prep.current_speed s.prep.current_speed in
        let first : i ≡ index t 0 = (h.slow i e).0 ∙ omega (arith, h.ring.tail_in) in
        let c = set_entry-Changed real s 0 v h.ring h.ring.planned_in in
        rw first (record {
          ring = set_entry-IsAt real s (index t 0) v h.ring;
          can_stop = Changed-CanStop real c ((h.slow i e).1) h.can_stop;
          can_reach = λ o l. absurd (omega arith);
          slow = λ j x. absurd (cc x);
        })

    update_if_tail-IsPlanned :
        (s : Plan real) {t q n : ℕ} (m : ℕ)
        → IsPlanned s t q n
        → q ≤ m
        → m < n
        → IsPlanned (update_if_tail real (index t m) s) t q n
    unfolding st_update_plan_block_parameters
    update_if_tail-IsPlanned s {t} {q} {n} m h lo l =
        elim (Bool-cases (index t m == s.planner.tail)) [
          | inl e ↦
              (let first : q ≡ 0 =
                  omega (arith, ==→eq _ _ e, h.ring.size, h.ring.tail_in, h.ring.tail_is) in
                rw (e, first) (update_block-IsPlanned s s.prep.pl_block refl (rw first at h)))
          | inr e ↦ rw e h
        ]

    plan_entry-IsPlanned :
        (s : Plan real) {t q n : ℕ} (m : ℕ)
        → IsPlanned s t q n
        → q < m
        → suc m < n
        → IsPlanned (plan_entry real (index t m) (index t (suc m)) s) t q n
    unfolding plan_entry
    plan_entry-IsPlanned s {t} {q} {n} m h lo l =
        let f = profile real t s.planner in
        let v = add (f.entry (suc m)) (f.change m) in
        let slower = h.can_stop.slows m l in
        let under = h.can_stop.limited m (omega arith) (omega arith) in
        elim (Bool-cases (eq (f.entry m) (f.limit m))) [
          | inl e ↦ rw e h
          | inr e ↦ elim (Bool-cases (lt v (f.limit m))) [
            | inl x ↦
                rw (e, x)
                  (raise-IsPlanned s m v h lo (omega arith)
                    (higher-Fits real order h.can_stop (omega arith) (λ _. order.lt_asym x)
                      (λ _. le_refl real order v) (λ y. absurd (omega (arith, y))) slower)
                    slower)
            | inr x ↦
                rw (e, x)
                  (raise-IsPlanned s m (f.limit m) h lo (omega arith)
                    (higher-Fits real order h.can_stop (omega arith)
                      (λ _. le_refl real order (f.limit m)) (λ _. x)
                      (λ y. absurd (omega (arith, y))) under)
                    under)
          ]
        ]

    pub plan_last-IsPlanned :
        (s : Plan real) {t q n : ℕ} (m : ℕ)
        → IsPlanned s t q n
        → q < m
        → suc m ≡ n
        → IsPlanned (plan_last real (index t m) s) t q n
    unfolding plan_last
    plan_last-IsPlanned s {t} {q} {n} m h lo l =
        let f = profile real t s.planner in
        let slower = h.can_stop.stops m l in
        let under = h.can_stop.limited m (omega arith) (omega (arith, l)) in
        elim (Bool-cases (lt (f.limit m) (f.change m))) [
          | inl x ↦ rw x (
              raise-IsPlanned s m (f.limit m) h lo (omega (arith, l))
                (higher-Fits real order h.can_stop (omega (arith, l))
                  (λ _. le_refl real order (f.limit m)) (λ y. absurd (omega (arith, y, l)))
                  (λ _. order.lt_asym x) under)
                under)
          | inr x ↦ rw x (
              raise-IsPlanned s m (f.change m) h lo (omega (arith, l))
                (higher-Fits real order h.can_stop (omega (arith, l)) (λ _. x)
                  (λ y. absurd (omega (arith, y, l))) (λ _. le_refl real order (f.change m)) slower)
                slower)
        ]

    reverse_pass-IsPlanned :
        (fuel m : ℕ) (s : Plan real) {t q n : ℕ}
        → IsPlanned s t q n
        → q ≤ m
        → suc m < n
        → m < q + fuel
        → (r : Plan real) × (reverse_pass real fuel (index t m) (index t (suc m)) s ≡ some r)
          × IsPlanned r t q n
    unfolding reverse_pass
    reverse_pass-IsPlanned zero m s h lo l enough = absurd (omega arith)
    reverse_pass-IsPlanned (suc fuel) zero s {t} h lo l enough =
        rw (eq→== (index t zero) s.planner.planned (omega (arith, h.ring.planned_is))) (s, refl, h)
    reverse_pass-IsPlanned (suc fuel) (suc k) s {t} {q} h lo l enough =
        elim (Bool-cases (index t (suc k) == s.planner.planned)) [
          | inl e ↦ rw e (s, refl, h)
          | inr e ↦
              (let ahead : q ≤ k = ground (arith, h.ring.planned_is) in
                rw (e, prev-index t k)
                  (reverse_pass-IsPlanned fuel k
                    (plan_entry real (index t (suc k)) (index t (suc (suc k)))
                      (update_if_tail real (index t k) s))
                    (plan_entry-IsPlanned (update_if_tail real (index t k) s) (suc k)
                      (update_if_tail-IsPlanned s k h ahead (omega arith)) (omega arith) l)
                    ahead (omega arith) (omega arith)))
        ]

    reverse_from-IsPlanned :
        (s : Plan real) {t q n : ℕ} (m : ℕ)
        → IsPlanned s t q n
        → q ≤ m
        → suc (suc m) ≡ n
        → (r : Plan real) × (reverse_from real (index t (suc m)) s ≡ some r) × IsPlanned r t q n
    unfolding reverse_from
    reverse_from-IsPlanned s {t} m h lo l = elim (Bool-cases (index t m == s.planner.planned)) [
      | inl e ↦
          rw (prev-index t m, e)
            (
              update_if_tail real (index t m) s,
              refl,
              update_if_tail-IsPlanned s m h lo (omega (arith, l)),
            )
      | inr e ↦
          rw (prev-index t m, e)
            (reverse_pass-IsPlanned block_buffer_size m s h lo (omega (arith, l))
              (omega (arith, l, h.ring.size)))
    ]

    -- The reverse pass from the last block.
    pub reverse_whole :
        (s : Plan real) {t q n : ℕ}
        → IsPlanned s t q (suc n)
        → q < n
        → (r : Plan real) × (reverse_from real (index t n) s ≡ some r) × IsPlanned r t q (suc n)
    reverse_whole s {n = zero} h l = absurd (omega arith)
    reverse_whole s {n = suc m} h l = reverse_from-IsPlanned s m h (omega arith) refl
