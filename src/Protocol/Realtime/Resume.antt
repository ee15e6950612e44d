-- ===== src/Protocol/Realtime/Resume.antt =====
-- A feed hold and the resumption of the cycle, over the rounds of the realtime loop.
use mathlib.Core.List.{append_assoc}
use cpcbm.Base.{
  inl, inr, Bool-cases, true, false, [], ◌∷◌, ◌++◌, if◌then◌else◌, ◌≡◌, refl, ap, ◌∙◌, arith,
}
use cpcbm.System.{
  State, Exec, Sys, no_exec, no_suspend, st_prep_buffer, st_wake_up,
  st_update_plan_block_parameters,
}
use cpcbm.Protocol.Realtime.States.{round_calm}
use cpcbm.Protocol.Realtime.{
  Machine, any_alarm, run_status_report, run_holds, run_cycle_start, run_cycle_stop, run_requests,
  run_reload, realtime_round,
}

-- A round that meets these requests only.
abbrev pub round_on : Machine → Exec → Sys → Sys
round_on m rt s = (realtime_round m (record s { exec = rt })).0

abbrev pub feed_hold : Exec
feed_hold = record no_exec { feed_hold = true }

abbrev pub cycle_stop : Exec
cycle_stop = record no_exec { cycle_stop = true }

abbrev pub cycle_start : Exec
cycle_start = record no_exec { cycle_start = true }

calm_round :
    (m : Machine) (rt : Exec) (s : Sys)
    → any_alarm s.alarms ≡ false
    → rt.reset ≡ false
    → round_on m rt s ≡ run_reload m (run_requests m rt (record s { exec = rt }))
calm_round m rt s a r = ap (λ x. x.0) (round_calm m (record s { exec = rt }) (a, r))

hold_round :
    (m : Machine) (s : Sys)
    → any_alarm s.alarms ≡ false
    → s.state ≡ State.cycle
    → ((round_on m feed_hold s).state ≡ State.hold)
      × ((round_on m feed_hold s).suspend ≡ record no_suspend { enable_hold = true })
      × ((round_on m feed_hold s).alarms ≡ s.alarms)
      × ((round_on m feed_hold s).soft_limit ≡ s.soft_limit)
      × ((round_on m feed_hold s).calls
          ≡ (s.calls ++ (st_update_plan_block_parameters ∷ [])) ++ (st_prep_buffer ∷ []))
unfolding run_requests run_status_report run_holds run_cycle_start run_cycle_stop run_reload
hold_round m s a h = rw (calm_round m feed_hold s a refl) (ground (arith, h))

stop_round :
    (m : Machine) (s : Sys)
    → any_alarm s.alarms ≡ false
    → s.soft_limit ≡ false
    → s.suspend ≡ record no_suspend { enable_hold = true }
    → s.state ≡ State.hold
    → ((round_on m cycle_stop s).state ≡ State.hold)
      × ((round_on m cycle_stop s).suspend
          ≡ record no_suspend { enable_hold = true; enable_ready = true })
      × ((round_on m cycle_stop s).alarms ≡ s.alarms)
      × ((round_on m cycle_stop s).calls ≡ s.calls ++ (st_prep_buffer ∷ []))
unfolding run_requests run_status_report run_holds run_cycle_start run_cycle_stop run_reload
stop_round m s a l p h = rw (calm_round m cycle_stop s a refl) (ground (arith, h, p, l))

start_round :
    (m : Machine) (s : Sys)
    → any_alarm s.alarms ≡ false
    → s.suspend ≡ record no_suspend { enable_hold = true; enable_ready = true }
    → s.state ≡ State.hold
    → ((round_on m cycle_start s).state ≡ (if m.has_block then State.cycle else State.idle))
      × ((round_on m cycle_start s).suspend ≡ no_suspend)
      × ((round_on m cycle_start s).exec ≡ no_exec)
      × ((round_on m cycle_start s).calls ≡ (
          if m.has_block
          then ((s.calls ++ (st_prep_buffer ∷ [])) ++ (st_wake_up ∷ [])) ++ (st_prep_buffer ∷ [])
          else s.calls))
unfolding run_requests run_status_report run_holds run_cycle_start run_cycle_stop run_reload
start_round m s a p h = rw (calm_round m cycle_start s a refl) (ground (arith, h, p))

-- A machine in a cycle, with no alarm and no soft limit passed, that meets a feed hold, then the cycle
-- stop that the stepper driver requests when the motion has stopped, then a cycle start, each alone in
-- a round: it holds, still holds, and at last runs again if the planner has a block, and is idle
-- otherwise; no suspension and no request is left. On the way the stepper driver is told of the new
-- plan and its segments are filled in each round that moves; it is woken up when the cycle goes on.
pub hold_resumes :
    (m : Machine) (s : Sys)
    → any_alarm s.alarms ≡ false
    → s.soft_limit ≡ false
    → s.state ≡ State.cycle
    → let holding = round_on m feed_hold s in
      let stopped = round_on m cycle_stop holding in
      let resumed = round_on m cycle_start stopped in
      (holding.state ≡ State.hold)
      × (stopped.state ≡ State.hold)
      × (resumed.state ≡ (if m.has_block then State.cycle else State.idle))
      × (resumed.suspend ≡ no_suspend)
      × (resumed.exec ≡ no_exec)
      × (resumed.calls
          ≡ s.calls
            ++ (st_update_plan_block_parameters
                ∷ st_prep_buffer
                ∷ st_prep_buffer
                ∷ (if m.has_block then st_prep_buffer ∷ st_wake_up ∷ st_prep_buffer ∷ [] else [])))
hold_resumes m s a l h =
    let (h1, p1, a1, l1, c1) = hold_round m s a h in
    let holding = round_on m feed_hold s in
    let no_alarm1 = ap any_alarm a1 ∙ a in
    let (h2, p2, a2, c2) = stop_round m holding no_alarm1 (l1 ∙ l) p1 h1 in
    let stopped = round_on m cycle_stop holding in
    let (h3, p3, e3, c3) = start_round m stopped (ap any_alarm a2 ∙ no_alarm1) p2 h2 in
    (
      h1,
      h2,
      h3,
      p3,
      e3,
      c3
          ∙ rw (c2, c1)
              (elim (Bool-cases m.has_block) [
                | inl e ↦ simp (e, append_assoc)
                | inr e ↦ simp (e, append_assoc)
              ]),
    )
