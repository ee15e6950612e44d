-- ===== src/MotionControl/Arc.antt =====
-- common_src/motion_control.c: `mc_arc`, which makes an arc of lines. `mc_line` and the abort flag are
-- parameters, over the state that `mc_line` changes.
use cpcbm.Base.{ℕ, zero, suc, ◌+◌, ◌-◌, Bool, true, false, ◌||◌, ◌==◌, ltb, if◌then◌else◌}
use cpcbm.Base.Real.{Real, Vec, Axis, at, put}
use cpcbm.Settings.Global.{GlobalSettings}

-- N_ARC_CORRECTION
abbrev pub n_arc_correction : ℕ
n_arc_correction = 12

module _ (real : Real) where
  open real use {
    R, decimal, add, sub, mul, div, neg, sqrt, fabs, floor, atan2, cos, sin, lt, eq, trunc_u16,
    of_nat,
  }

  -- The arguments but for the position and the feed rate.
  pub record Arc : Type 0 where
    pub target : Vec R
    pub offset : Vec R
    pub radius : R
    pub invert_feed_rate : Bool
    pub axis_0 : Axis
    pub axis_1 : Axis
    pub axis_linear : Axis
    pub is_clockwise_arc : Bool

  abbrev pub arc_angular_travel_epsilon : R
  arc_angular_travel_epsilon = decimal 5 7

  -- 2*M_PI
  abbrev pub full_turn : R
  full_turn = mul (decimal 2 0) (decimal 314159265358979323846 20)

  -- `a >= b`, which is false of a value that is not a number
  abbrev pub at_least : R → R → Bool
  at_least a b = lt b a || eq a b

  abbrev pub directed : Bool → R → R
  directed is_clockwise_arc travel =
      if is_clockwise_arc
      then (if at_least travel (neg arc_angular_travel_epsilon)
          then sub travel full_turn
          else travel)
      else (if at_least arc_angular_travel_epsilon travel then add travel full_turn else travel)

  unfoldable pub angular_travel : Arc → Vec R → R
  angular_travel a position =
      let r0 = neg (at a.offset a.axis_0) in
      let r1 = neg (at a.offset a.axis_1) in
      let rt0 = sub (at a.target a.axis_0) (add (at position a.axis_0) (at a.offset a.axis_0)) in
      let rt1 = sub (at a.target a.axis_1) (add (at position a.axis_1) (at a.offset a.axis_1)) in
      directed a.is_clockwise_arc
        (atan2 (sub (mul r0 rt1) (mul r1 rt0)) (add (mul r0 rt0) (mul r1 rt1)))

  unfoldable pub arc_segments : GlobalSettings real → Arc → R → ℕ
  arc_segments settings a travel =
      let tolerance = settings.arc_tolerance in
      trunc_u16 (
        floor (
          div (fabs (mul (mul (decimal 5 1) travel) a.radius))
            (sqrt (mul tolerance (sub (mul (decimal 2 0) a.radius) tolerance)))))

  -- What the loop over the segments does not change.
  pub record Rotation : Type 0 where
    pub center_axis0 : R
    pub center_axis1 : R
    pub theta_per_segment : R
    pub linear_per_segment : R
    pub cos_t : R
    pub sin_t : R

  unfoldable pub rotation_of : Arc → Vec R → R → ℕ → Rotation
  rotation_of a position travel segments =
      let theta = div travel (of_nat segments) in
      let cos_double = sub (decimal 2 0) (mul theta theta) in
      record {
        center_axis0 = add (at position a.axis_0) (at a.offset a.axis_0);
        center_axis1 = add (at position a.axis_1) (at a.offset a.axis_1);
        theta_per_segment = theta;
        linear_per_segment =
            div (sub (at a.target a.axis_linear) (at position a.axis_linear)) (of_nat segments);
        cos_t = mul cos_double (decimal 5 1);
        sin_t = mul (mul theta (decimal 16666667 8)) (add cos_double (decimal 4 0));
      }

  -- The loop's variables.
  pub record Turning : Type 0 where
    pub r_axis0 : R
    pub r_axis1 : R
    pub count : ℕ
    pub position : Vec R

  -- The radius vector of segment `i`.
  unfoldable pub rotate : Arc → Rotation → ℕ → Turning → Turning
  rotate a k i t =
      let angle = mul (of_nat i) k.theta_per_segment in
      let offset0 = at a.offset a.axis_0 in
      let offset1 = at a.offset a.axis_1 in
      if ltb t.count n_arc_correction
      then record t {
        r_axis0 = sub (mul t.r_axis0 k.cos_t) (mul t.r_axis1 k.sin_t);
        r_axis1 = add (mul t.r_axis0 k.sin_t) (mul t.r_axis1 k.cos_t);
        count = t.count + 1;
      }
      else record t {
        r_axis0 = add (mul (neg offset0) (cos angle)) (mul offset1 (sin angle));
        r_axis1 = sub (mul (neg offset0) (sin angle)) (mul offset1 (cos angle));
        count = 0;
      }

  -- The end of segment `i`.
  unfoldable pub turn : Arc → Rotation → ℕ → Turning → Turning
  unfolding rotate
  turn a k i t =
      let r = rotate a k i t in
      let flat =
        put (put r.position a.axis_0 (add k.center_axis0 r.r_axis0)) a.axis_1
          (add k.center_axis1 r.r_axis1) in
      record r {
        position = put flat a.axis_linear (add (at flat a.axis_linear) k.linear_per_segment);
      }

  module _ {S : Type 0} (mc_line : Vec R → R → Bool → S → S) (is_aborted : S → Bool) where
    -- The loop from segment `i` on; whether it was left on an abort, with the position that is left.
    unfoldable pub arc_loop : Arc → Rotation → R → ℕ → ℕ → Turning → S → Bool × Vec R × S
    unfolding turn
    arc_loop a k rate zero i t s = (false, t.position, s)
    arc_loop a k rate (suc n) i t s =
        let next = turn a k i t in
        let moved = mc_line next.position rate a.invert_feed_rate s in
        let rest = arc_loop a k rate n (i + 1) next moved in
        if is_aborted moved then (true, next.position, moved) else rest

    -- The last line, to the target itself.
    abbrev pub finish_arc : Arc → R → Bool × Vec R × S → Vec R × S
    finish_arc a rate (true, position, s) = (position, s)
    finish_arc a rate (false, position, s) = (position, mc_line a.target rate a.invert_feed_rate s)

    unfoldable pub mc_arc : GlobalSettings real → Arc → Vec R → R → S → Vec R × S
    unfolding angular_travel arc_segments rotation_of arc_loop
    mc_arc settings a position feed_rate s =
        let travel = angular_travel a position in
        let segments = arc_segments settings a travel in
        let rate = if a.invert_feed_rate then mul feed_rate (of_nat segments) else feed_rate in
        let begun : Turning = record {
          r_axis0 = neg (at a.offset a.axis_0);
          r_axis1 = neg (at a.offset a.axis_1);
          count = 0;
          position = position;
        } in
        if segments == 0
        then finish_arc a feed_rate (false, position, s)
        else finish_arc a rate
            (arc_loop a (rotation_of a position travel segments) rate (segments - 1) 1 begun s)
