-- ===== src/Stepper/Bresenham.antt =====
-- The counter of one axis: the sum of the increments is kept, in steps and in what is left.
use cpcbm.Base.{ap, ℕ, suc, ◌+◌, ◌-◌, ◌*◌, ◌/◌, ◌^◌, ◌≡◌, ◌<◌, ◌≤◌, arith, Bool, true, false}
use cpcbm.Stepper.{advance_counter}
use native.Mathlib.Nat.{mul-add, mul-suc, mul_comm}

abbrev pub count_if : Bool → ℕ → ℕ
count_if true k = suc k
count_if false k = k

-- After `w` units of work on a block with `e` events and `s` units of an axis for each of them, the
-- counter is `c` and the axis has made `k` steps.
pub record OnLine (e s w c k : ℕ) : Type 0 where
  pub kept : c + e * k ≡ e / 2 + s * w
  pub positive : 0 < c
  pub bounded : c ≤ e

pub advance_counter-OnLine :
    (e s w c k u : ℕ)
    → 2 * e < 2 ^ 32
    → s * u ≤ e
    → OnLine e s w c k
    → OnLine e s
        (w + u)
        ((advance_counter e c (s * u)).0)
        (count_if ((advance_counter e c (s * u)).1) k)
unfolding advance_counter
advance_counter-OnLine e s w c k u h l o = record {
  kept = ground (arith, o.kept, mul-add s w u, mul-suc e k, o.bounded);
  positive = ground (arith, o.positive, o.bounded);
  bounded = ground (arith, o.bounded);
}

times_next : (e k s : ℕ) → k < s → e * k + e ≤ e * s
times_next e k s l =
    let sum : e * s ≡ e * (suc k + (s - suc k)) = ap (λ n. e * n) (omega arith) in
    omega (arith, sum, mul-add e (suc k) (s - suc k), mul-suc e k)

-- At the end of the block, the axis has made as many steps as it has units for each event.
pub OnLine-whole : (e s c k : ℕ) → 2 ≤ e → OnLine e s e c k → k ≡ s
OnLine-whole e s c k l o =
    ground (arith, o.kept, o.positive, o.bounded, mul_comm s e, times_next e k s, times_next e s k)
