-- ===== src/Tests/Arcs.antt =====
-- An arc with a recorder in place of `mc_line`.
use cpcbm.Base.{ℕ, ◌*◌, ◌≡◌, refl, Bool, false, List, [], ◌∷◌, ◌++◌, ◌==◌, if◌then◌else◌, length}
use cpcbm.Base.Int.{ℤ, pos}
use cpcbm.Base.Real.{Vec, x_axis, y_axis, z_axis}
use cpcbm.MotionControl.Arc.{Arc, angular_travel, arc_segments, mc_arc}
use cpcbm.MotionControl.Lines.{segments, arc_lines, line_rate, run_until, mc_arc-run_until}
use cpcbm.Tests.Fixed.{fixed}
use cpcbm.Tests.Buffered.{settings}

abbrev at_mm : ℕ → ℕ → Vec ℤ
at_mm x y = record { x = pos (x * 1000); y = pos (y * 1000); z = pos 0 }

abbrev arc : Arc fixed
arc = record {
  target = at_mm 4 8;
  offset = at_mm 2 2;
  radius = pos 6000;
  invert_feed_rate = false;
  axis_0 = x_axis;
  axis_1 = y_axis;
  axis_linear = z_axis;
  is_clockwise_arc = false;
}

segments_value : segments fixed settings arc (at_mm 0 0) (pos 100000) ≡ 34
unfolding angular_travel arc_segments
segments_value = refl

abbrev recorded : Vec ℤ → ℤ → Bool → List (Vec ℤ) → List (Vec ℤ)
recorded target feed_rate invert_feed_rate lines = lines ++ (target ∷ [])

-- A system that is aborted once three lines have been run.
abbrev after_three : List (Vec ℤ) → Bool
after_three lines = length lines == 3

mc_arc-run_until_example :
    (length (arc_lines fixed settings arc (at_mm 0 0) (pos 100000)) ≡ (
      if segments fixed settings arc (at_mm 0 0) (pos 100000) == 0
      then 1
      else segments fixed settings arc (at_mm 0 0) (pos 100000)))
    × ((mc_arc fixed recorded after_three settings arc (at_mm 0 0) (pos 100000) []).1
        ≡ run_until fixed recorded after_three
            (line_rate fixed settings arc (at_mm 0 0) (pos 100000))
            false
            (arc_lines fixed settings arc (at_mm 0 0) (pos 100000))
            [])
mc_arc-run_until_example =
    mc_arc-run_until fixed recorded after_three settings arc (at_mm 0 0) (pos 100000) []
