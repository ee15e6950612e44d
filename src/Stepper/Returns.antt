-- ===== src/Stepper/Returns.antt =====
-- `st_prep_buffer` as a whole: it returns, and what it leaves is what the interrupt needs.
use cpcbm.Base.{
  ℕ, zero, suc, ◌+◌, ◌≡◌, ◌≤◌, refl, arith, Bool, true, false, ◌&&◌, if◌then◌else◌, Option, none,
  some, length, ◌==◌,
}
use cpcbm.Base.Real.{Real}
use cpcbm.Stepper.{segment_buffer_size}
use cpcbm.Stepper.Prepare.{Preparation, Outcome, continue, bail, is_suspended}
use cpcbm.Stepper.Kept.{View, IsFilling, Kept, waiting, HasRoom, self-Kept, chain-Kept, room_count}
use cpcbm.Stepper.Filled.{view}
use cpcbm.Stepper.Rounds.{no_outcome, makes, Rounds, stops, goes, prep_round-Rounds}
use cpcbm.Stepper.Fill.{Filling, ready, endless, out_of_rounds, prep_round, fill, st_prep_buffer}

module _ (real : Real) where
  open real use {decimal, eq}

  -- How the filling ends, where `v` was the state before.
  abbrev pub Fills : View → Filling real → Type 0
  Fills v (ready t) = IsFilling (view real t) × Kept v.stepper t.stepper
  Fills v endless = Unit
  Fills v out_of_rounds = ⊥

  if-Fills :
      (v : View) (c : Bool) (a b : Filling real)
      → (c ≡ true → Fills v a)
      → (c ≡ false → Fills v b)
      → Fills v (if c then a else b)
  if-Fills v true a b x y = x refl
  if-Fills v false a b x y = y refl

  chain-Fills : (v w : View) (o : Filling real) → Kept v.stepper w.stepper → Fills w o → Fills v o
  chain-Fills v w (ready t) k (f, m) = (f, chain-Kept v.stepper w.stepper t.stepper k m)
  chain-Fills v w endless k f = tt
  chain-Fills v w out_of_rounds k f = f

  has_room :
      (s : Preparation real)
      → (s.stepper.segment_buffer_tail == s.segment_next_head) ≡ false
      → HasRoom (view real s)
  has_room s e = ground arith

  abbrev fill_of : ℕ → ℕ → Preparation real → Option (Option (Outcome real)) → Filling real
  fill_of rounds fuel s o = elim o [
    | none ↦ ready s
    | some none ↦ endless
    | some (some (bail none)) ↦ endless
    | some (some (bail (some t))) ↦ ready t
    | some (some (continue t)) ↦ fill real rounds fuel t
  ]

  fill_of-Fills :
      (rounds fuel : ℕ) (s : Preparation real) (o : Option (Option (Outcome real)))
      → ((t : Preparation real)
          → IsFilling (view real t)
          → 5 ≤ rounds + length (waiting t.stepper)
          → Fills (view real t) (fill real rounds fuel t))
      → IsFilling (view real s)
      → 5 ≤ suc rounds + length (waiting s.stepper)
      → Rounds real (view real s) o
      → Fills (view real s) (fill_of rounds fuel s o)
  fill_of-Fills rounds fuel s o rest h l stops = (h, self-Kept s.stepper)
  fill_of-Fills rounds fuel s o rest h l (goes no_outcome) = tt
  fill_of-Fills rounds fuel s o rest h l (goes (makes {o = bail none} e)) = tt
  fill_of-Fills rounds fuel s o rest h l (goes (makes {o = bail (some t)} (f, k, n))) = (f, k)
  fill_of-Fills rounds fuel s o rest h l (goes (makes {o = continue t} (f, k, n))) =
      chain-Fills (view real s) (view real t) (fill real rounds fuel t) k
        (rest t f (omega (arith, l, n)))

  fill-Fills :
      (rounds fuel : ℕ) (s : Preparation real)
      → IsFilling (view real s)
      → 5 ≤ rounds + length (waiting s.stepper)
      → Fills (view real s) (fill real rounds fuel s)
  unfolding fill
  fill-Fills zero fuel s h l =
      if-Fills (view real s) (s.stepper.segment_buffer_tail == s.segment_next_head) (ready s)
        out_of_rounds (λ e. (h, self-Kept s.stepper))
        (λ e. absurd (omega (arith, l, room_count (view real s) h (has_room s e))))
  fill-Fills (suc rounds) fuel s h l =
      if-Fills (view real s) (s.stepper.segment_buffer_tail == s.segment_next_head) (ready s)
        (fill_of rounds fuel s (prep_round real fuel s)) (λ e. (h, self-Kept s.stepper))
        (λ e.
          fill_of-Fills rounds fuel s (prep_round real fuel s)
            (λ t f n. fill-Fills rounds fuel t f n) h l
            (prep_round-Rounds real fuel s h (has_room s e)))

  -- The rings of the stepper driver are valid, and the waiting segments use blocks that were loaded
  -- last. Then `st_prep_buffer` makes no more than SEGMENT_BUFFER_SIZE rounds. Unless the loop over the
  -- ramps or the planner runs out of fuel, it returns with valid rings, in which the segments that
  -- waited still wait, with new ones behind them; of what the interrupt uses nothing else has
  -- changed, and the data of every block that a waiting segment uses are as before.
  pub st_prep_buffer-Fills :
      (fuel : ℕ) (s : Preparation real)
      → IsFilling (view real s)
      → Fills (view real s) (st_prep_buffer real fuel s)
  unfolding st_prep_buffer
  st_prep_buffer-Fills fuel s h =
      if-Fills (view real s)
        (is_suspended s.stepper.state && eq s.plan.prep.current_speed (decimal 0 0)) (ready s)
        (fill real segment_buffer_size fuel s) (λ e. (h, self-Kept s.stepper))
        (λ e. fill-Fills segment_buffer_size fuel s h (omega arith))
