-- ===== src/MotionControl/Lines.antt =====
-- An arc as a list of lines.
use cpcbm.Base.{
  ℕ, zero, suc, ◌+◌, ◌-◌, ◌≡◌, refl, ap, ◌∙◌, arith, Bool, false, List, [], ◌∷◌, ◌++◌, ◌==◌,
  if◌then◌else◌, inl, inr, Bool-cases, length, length-append,
}
use cpcbm.Base.Real.{Real, Vec, at}
use cpcbm.Settings.Global.{GlobalSettings}
use cpcbm.MotionControl.Arc.{
  Arc, Rotation, Turning, angular_travel, arc_segments, rotation_of, turn, arc_loop, finish_arc,
  mc_arc,
}

module _ (real : Real) where
  open real use {R, mul, neg, of_nat}

  -- The ends of `n` segments from segment `i` on.
  abbrev arc_ends : Arc real → Rotation real → ℕ → ℕ → Turning real → List (Vec R)
  arc_ends a k zero i t = []
  arc_ends a k (suc n) i t =
      (turn real a k i t).position ∷ arc_ends a k n (i + 1) (turn real a k i t)

  length-arc_ends :
      (a : Arc real) (k : Rotation real) (n i : ℕ) (t : Turning real)
      → length (arc_ends a k n i t) ≡ n
  length-arc_ends a k zero i t = refl
  length-arc_ends a k (suc n) i t = ap suc (length-arc_ends a k n (i + 1) (turn real a k i t))

  module _ (settings : GlobalSettings real) (a : Arc real) (position : Vec R) (feed_rate : R) where
    abbrev pub segments : ℕ
    segments = arc_segments real settings a (angular_travel real a position)

    abbrev first_turn : Turning real
    first_turn = record {
      r_axis0 = neg (at a.offset a.axis_0);
      r_axis1 = neg (at a.offset a.axis_1);
      count = 0;
      position = position;
    }

    -- The ends of the lines: those of the segments but the last one, and the target.
    abbrev pub arc_lines : List (Vec R)
    arc_lines =
        arc_ends a (rotation_of real a position (angular_travel real a position) segments)
          (segments - 1) 1 first_turn
        ++ (a.target ∷ [])

    abbrev pub line_rate : R
    line_rate =
        if segments == 0
        then feed_rate
        else if a.invert_feed_rate
        then mul feed_rate (of_nat segments)
        else feed_rate

  module _ {S : Type 0} (mc_line : Vec R → R → Bool → S → S) (is_aborted : S → Bool) where
    -- Run lines one after another, and stop after the first one that leaves the system aborted.
    abbrev pub run_until : R → Bool → List (Vec R) → S → S
    run_until rate invert [] s = s
    run_until rate invert (x ∷ xs) s =
        let moved = mc_line x rate invert s in
        let rest = run_until rate invert xs moved in if is_aborted moved then moved else rest

    finish_arc-run_until :
        (a : Arc real) (k : Rotation real) (rate : R) (n i : ℕ) (t : Turning real) (s : S)
        → (finish_arc real mc_line is_aborted a rate
            (arc_loop real mc_line is_aborted a k rate n i t s)).1
          ≡ run_until rate a.invert_feed_rate (arc_ends a k n i t ++ (a.target ∷ [])) s
    unfolding arc_loop
    finish_arc-run_until a k rate zero i t s =
        elim (Bool-cases (is_aborted (mc_line a.target rate a.invert_feed_rate s))) [
          | inl e ↦ rw e refl
          | inr e ↦ rw e refl
        ]
    finish_arc-run_until a k rate (suc n) i t s =
        let next = turn real a k i t in
        let moved = mc_line next.position rate a.invert_feed_rate s in
        elim (Bool-cases (is_aborted moved)) [
          | inl e ↦ rw e refl
          | inr e ↦ rw e (finish_arc-run_until a k rate n (i + 1) next moved)
        ]

    counted_lines :
        (a : Arc real) (k : Rotation real) (t : Turning real) (n : ℕ)
        → length (arc_ends a k (n - 1) 1 t ++ (a.target ∷ [])) ≡ (if n == 0 then 1 else n)
    counted_lines a k t n =
        length-append (arc_ends a k (n - 1) 1 t) (a.target ∷ [])
        ∙ ground (arith, length-arc_ends a k (n - 1) 1 t)

    counted-run_until :
        (a : Arc real) (k : Rotation real) (t : Turning real) (position : Vec R)
        (feed_rate rate : R) (n : ℕ) (s : S)
        → ((if n == 0
            then finish_arc real mc_line is_aborted a feed_rate (false, position, s)
            else finish_arc real mc_line is_aborted a rate
                (arc_loop real mc_line is_aborted a k rate (n - 1) 1 t s)).1)
          ≡ run_until
              (if n == 0 then feed_rate else rate)
              a.invert_feed_rate
              (arc_ends a k (n - 1) 1 t ++ (a.target ∷ []))
              s
    unfolding arc_loop
    counted-run_until a k t position feed_rate rate zero s =
        finish_arc-run_until a k feed_rate 0 1 t s
    counted-run_until a k t position feed_rate rate (suc n) s =
        let more : (suc n == 0) ≡ false = ground arith in
        rw more (finish_arc-run_until a k rate (suc n - 1) 1 t s)

    -- An arc is a list of lines, as many as `segments` or one if that is zero, the last of which ends at
    -- the target itself. `mc_arc` runs them in order, at the feed rate times their number where it is
    -- inverse, and stops after the first line that leaves the system aborted.
    pub mc_arc-run_until :
        (settings : GlobalSettings real) (a : Arc real) (position : Vec R) (feed_rate : R) (s : S)
        → (length (arc_lines settings a position feed_rate) ≡ (
            if segments settings a position feed_rate == 0
            then 1
            else segments settings a position feed_rate))
          × ((mc_arc real mc_line is_aborted settings a position feed_rate s).1
              ≡ run_until
                  (line_rate settings a position feed_rate)
                  a.invert_feed_rate
                  (arc_lines settings a position feed_rate)
                  s)
    unfolding mc_arc
    mc_arc-run_until settings a position feed_rate s =
        let n = segments settings a position feed_rate in
        let k = rotation_of real a position (angular_travel real a position) n in
        let t = first_turn settings a position feed_rate in
        (
          counted_lines a k t n,
          counted-run_until a k t position feed_rate
              (if a.invert_feed_rate then mul feed_rate (of_nat n) else feed_rate) n s,
        )
