-- ===== src/Planner/Profile.antt =====
-- Speed profiles: the entry speeds of consecutive blocks, and what a change of one of them keeps.
use cpcbm.Base.{
  ℕ, suc, ◌≡◌, ◌≢◌, ◌<◌, ◌∙◌, arith, false, true, inl, inr, Bool-cases, ◌==◌, if◌then◌else◌, ==→eq,
}
use cpcbm.Base.Real.{Real}

module _ (real : Real) where
  open real use {R, decimal, add, lt}

  abbrev pub Le : R → R → Type 0
  Le a b = lt b a ≡ false

  -- What holds of the comparison and the addition of `float` values that are no NaN.
  pub record Order : Type 0 where
    pub le_trans : {a b c : R} → Le a b → Le b c → Le a c
    pub lt_asym : {a b : R} → lt a b ≡ true → Le a b
    pub add_le : {a b : R} (c : R) → Le a b → Le (add a c) (add b c)
    pub add_more : (a : R) {c : R} → Le (decimal 0 0) c → Le a (add a c)
    pub more_add : {a : R} (c : R) → Le (decimal 0 0) a → Le c (add a c)

  -- The squares of the entry speeds and their limits, and the changes of the squares that the blocks
  -- allow, for `n` blocks.
  pub record Profile : Type 0 where
    pub entry : ℕ → R
    pub limit : ℕ → R
    pub change : ℕ → R

  -- No speed but that of the first block, which is in execution, is over its limit; the next block's speed can be reached by slowing down, and the
  -- machine can stop at the end of the last block.
  -- The limits and the changes are those of `b`.
  pub record CanStop (b f : Profile) (n : ℕ) : Type 0 where
    pub same_limit : (o : ℕ) → o < n → f.limit o ≡ b.limit o
    pub same_change : (o : ℕ) → o < n → f.change o ≡ b.change o
    pub limited : (o : ℕ) → 0 < o → o < n → Le (f.entry o) (f.limit o)
    pub slows : (o : ℕ) → suc o < n → Le (f.entry o) (add (f.entry (suc o)) (f.change o))
    pub stops : (o : ℕ) → suc o ≡ n → Le (f.entry o) (f.change o)
    pub moves : (o : ℕ) → o < n → Le (decimal 0 0) (f.change o)

  -- Up to block `k`, each speed can be reached from the one before it.
  abbrev pub CanReach : Profile → ℕ → Type 0
  CanReach f k = (o : ℕ) → o < k → Le (f.entry (suc o)) (add (f.entry o) (f.change o))

  -- Only the speed of block `m` changes.
  pub record Changed (f g : Profile) (n m : ℕ) (v : R) : Type 0 where
    pub entry_is : (o : ℕ) → o < n → g.entry o ≡ (if o == m then v else f.entry o)
    pub limit_same : (o : ℕ) → o < n → g.limit o ≡ f.limit o
    pub change_same : (o : ℕ) → o < n → g.change o ≡ f.change o

  -- A speed that block `m` can have.
  pub record Fits (f : Profile) (n m : ℕ) (v : R) : Type 0 where
    pub limited : 0 < m → Le v (f.limit m)
    pub slows : suc m < n → Le v (add (f.entry (suc m)) (f.change m))
    pub stops : suc m ≡ n → Le v (f.change m)
    pub reached : (o : ℕ) → suc o ≡ m → Le (f.entry o) (add v (f.change o))

  -- In what follows, the speed of block `m` becomes one that it can have.
  module _ {f g : Profile} {n m : ℕ} {v : R} (c : Changed f g n m v) where
    pub entry_at : m < n → g.entry m ≡ v
    entry_at l = c.entry_is m l ∙ ground arith

    pub entry_other : (o : ℕ) → o < n → o ≢ m → g.entry o ≡ f.entry o
    entry_other o l ne = c.entry_is o l ∙ ground arith

    slows_after :
        {b : Profile}
        → Fits f n m v
        → CanStop b f n
        → (o : ℕ) → suc o < n
        → Le (g.entry o) (add (g.entry (suc o)) (g.change o))
    slows_after h s o l = elim (Bool-cases (o == m)) [
      | inl e ↦
          (let o_is = ==→eq o m e in
            rw
              (
                c.change_same o (omega arith),
                o_is,
                entry_at (omega arith),
                entry_other (suc m) (omega arith) (λ q. omega (arith, q)),
              )
              (h.slows (omega arith)))
      | inr e ↦ elim (Bool-cases (suc o == m)) [
        | inl q ↦
            (let m_is = ==→eq (suc o) m q in
              rw
                (
                  c.change_same o (omega arith),
                  entry_other o (omega arith) (λ x. omega (arith, x, m_is)),
                  m_is,
                  entry_at (omega arith),
                )
                (h.reached o m_is))
        | inr q ↦
            rw
              (
                c.change_same o (omega arith),
                entry_other o (omega arith) (ground arith),
                entry_other (suc o) (omega arith) (ground arith),
              )
              (s.slows o l)
      ]
    ]

    pub Changed-CanStop : {b : Profile} → Fits f n m v → CanStop b f n → CanStop b g n
    Changed-CanStop h s = record {
      same_limit = λ o l. c.limit_same o l ∙ s.same_limit o l;
      same_change = λ o l. c.change_same o l ∙ s.same_change o l;
      limited = λ o p l.
          ground (arith, c.entry_is o l, c.limit_same o l, h.limited, s.limited o p l, ==→eq o m);
      slows = slows_after h s;
      stops = λ o l. ground (
        arith,
        c.entry_is o (omega arith),
        c.change_same o (omega arith),
        h.stops,
        s.stops o l,
        ==→eq o m,
      );
      moves = λ o l. rw (c.change_same o l) (s.moves o l);
    }

    -- The blocks before the changed one can be reached as before.
    pub Changed-CanReach : (k : ℕ) → k < m → m < n → CanReach f k → CanReach g k
    Changed-CanReach k h l r o lo =
        rw
          (
            c.change_same o (omega arith),
            entry_other o (omega arith) (λ x. omega (arith, x)),
            entry_other (suc o) (omega arith) (λ x. omega (arith, x)),
          )
          (r o lo)

    -- If the changed block is not the first and gets faster, what the first can have stays so.
    pub Changed-Fits :
        (order : Order) {w : R} → 0 < m → m < n → Le (f.entry m) v → Fits f n 0 w → Fits g n 0 w
    Changed-Fits order {w} lo l h s = record {
      limited = λ p. absurd (omega (arith, p));
      slows = λ l1. elim (Bool-cases (1 == m)) [
        | inl e ↦
            (let m_is = ==→eq 1 m e in
              rw (c.change_same 0 (omega arith), m_is, entry_at l)
                (order.le_trans (s.slows l1) (order.add_le (f.change 0) (rw m_is h))))
        | inr e ↦ rw (c.change_same 0 (omega arith), entry_other 1 l1 (ground arith)) (s.slows l1)
      ];
      stops = λ e. absurd (omega (arith, e));
      reached = λ o e. absurd (omega (arith, e));
    }

  pub le_refl : (order : Order) (a : R) → Le a a
  le_refl order a = elim (Bool-cases (lt a a)) [ inl e ↦ order.lt_asym e | inr e ↦ e ]

  -- A higher speed fits, if it is not over the limit and the next block's speed can be reached.
  pub higher-Fits :
      {b f : Profile} {n m : ℕ} {v : R}
      → Order
      → CanStop b f n
      → m < n
      → (0 < m → Le v (f.limit m))
      → (suc m < n → Le v (add (f.entry (suc m)) (f.change m)))
      → (suc m ≡ n → Le v (f.change m))
      → Le (f.entry m) v
      → Fits f n m v
  higher-Fits {f = f} {n = n} {m = m} {v = v} order s l limit slows stops higher = record {
    limited = limit;
    slows = slows;
    stops = stops;
    reached = λ o e.
        (let slower = s.slows o (omega (arith, e)) in
          order.le_trans (rw e at slower) (order.add_le (f.change o) higher));
  }
