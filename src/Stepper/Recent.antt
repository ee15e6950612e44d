-- ===== src/Stepper/Recent.antt =====
-- The blocks that the segments in the stepper's ring use: the last ones of the five, counted back from
-- the one in preparation.
use cpcbm.Base.{
  ℕ, ◌+◌, ◌≡◌, ◌≢◌, ◌<◌, ◌≤◌, refl, sym, ◌∙◌, arith, List, [], ◌∷◌, ◌++◌, length, inl, inr, ◌⊎◌,
}
use cpcbm.Ring.Count.{next, used, used_self, used_full, used-next_head}
use cpcbm.Stepper.{Segment}

-- The size of `st_block_buffer`.
abbrev pub blocks : ℕ
blocks = 5

-- The segments, oldest first, use blocks that are not further back than there are segments behind
-- them, but for `extra`.
abbrev pub Recent : ℕ → ℕ → List Segment → Type 0
Recent index extra [] = Unit
Recent index extra (g ∷ gs) =
    (g.st_block_index < blocks)
    × (used blocks index g.st_block_index ≤ length gs + extra)
    × Recent index extra gs

abbrev pub Uses : ℕ → List Segment → Type 0
Uses j [] = ⊥
Uses j (g ∷ gs) = (g.st_block_index ≡ j) ⊎ Uses j gs

pub Uses-append : (j : ℕ) (gs hs : List Segment) → Uses j gs → Uses j (gs ++ hs)
Uses-append j [] hs u = absurd u
Uses-append j (g ∷ gs) hs (inl e) = inl e
Uses-append j (g ∷ gs) hs (inr u) = inr (Uses-append j gs hs u)

length-snoc : (gs : List Segment) (h : Segment) → length (gs ++ (h ∷ [])) ≡ length gs + 1
length-snoc [] h = refl
length-snoc (g ∷ gs) h = omega (arith, length-snoc gs h)

pub Recent-weaken :
    (index extra : ℕ) (gs : List Segment) → Recent index extra gs → Recent index (extra + 1) gs
Recent-weaken index extra [] r = tt
Recent-weaken index extra (g ∷ gs) (i, near, r) =
    (i, omega (arith, near), Recent-weaken index extra gs r)

-- A segment of the block in preparation is put behind.
pub Recent-push :
    (index : ℕ) (gs : List Segment) (h : Segment)
    → index < blocks
    → h.st_block_index ≡ index
    → Recent index 1 gs
    → Recent index 0 (gs ++ (h ∷ []))
Recent-push index [] h l e r = (rw e l, rw e (omega (arith, used_self blocks index)), tt)
Recent-push index (g ∷ gs) h l e (i, near, r) =
    (i, omega (arith, near, length-snoc gs h), Recent-push index gs h l e r)

-- The next block is none of those in use.
pub next_unused :
    (index j : ℕ) (gs : List Segment)
    → index < blocks
    → length gs < blocks
    → Recent index 0 gs
    → Uses j gs
    → next blocks index ≢ j
next_unused index j [] l few r u = absurd u
next_unused index j (g ∷ gs) l few (i, near, r) (inl e) = λ same.
    absurd (omega (arith, few, near, used_full blocks index g.st_block_index l i (same ∙ sym e)))
next_unused index j (g ∷ gs) l few (i, near, r) (inr u) =
    next_unused index j gs l (omega (arith, few)) r u

pub Recent-next :
    (index : ℕ) (gs : List Segment)
    → index < blocks
    → length gs < blocks
    → Recent index 0 gs
    → Recent (next blocks index) 1 gs
Recent-next index [] l few r = tt
Recent-next index (g ∷ gs) l few (i, near, r) = (
  i,
  omega (
    arith,
    near,
    used-next_head blocks index g.st_block_index l i
        (next_unused index g.st_block_index (g ∷ gs) l few (i, near, r) (inl refl)),
  ),
  Recent-next index gs l (omega (arith, few)) r,
)
