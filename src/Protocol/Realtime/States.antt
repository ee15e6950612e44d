-- ===== src/Protocol/Realtime/States.antt =====
-- Resets and holds in a round of the realtime loop.
use cpcbm.Base.{true, false, ◌≡◌, ◌≢◌, refl, ◌⊎◌, arith}
use cpcbm.System.{State, Exec, Sys}
use cpcbm.Protocol.Realtime.{
  Machine, any_alarm, run_alarms, run_status_report, run_holds, is_hold_request, run_cycle_start,
  run_cycle_stop, run_requests, run_reload, realtime_round, is_cycle,
}

-- No alarm is raised and no reset is requested.
abbrev pub IsCalm : Sys → Type 0
IsCalm s = (any_alarm s.alarms ≡ false) × (s.exec.reset ≡ false)

run_alarms_calm : (s : Sys) → IsCalm s → run_alarms s ≡ s
unfolding run_alarms
run_alarms_calm s (a, r) = rw a refl

-- With no alarm raised, a reset request ends the loop at once, and all that changes is that the
-- abort flag is set: no other request of the same round is served.
pub realtime_round_reset :
    (m : Machine) (s : Sys)
    → any_alarm s.alarms ≡ false
    → s.exec.reset ≡ true
    → realtime_round m s ≡ (record s { abort = true }, true)
unfolding realtime_round run_alarms
realtime_round_reset m s a r = rw (a, r) refl

pub round_calm :
    (m : Machine) (s : Sys)
    → IsCalm s
    → realtime_round m s ≡ (run_reload m (run_requests m s.exec s), false)
unfolding realtime_round
round_calm m s calm = rw (run_alarms_calm s calm, calm.1) refl

-- The holds: a cycle does not go on, and the round still knows of the request.
holds_stop :
    (rt : Exec) (s : Sys)
    → is_hold_request rt ≡ true
    → (is_cycle (run_holds rt s).1.state ≡ false) × (is_hold_request (run_holds rt s).0 ≡ true)
unfolding run_holds
holds_stop rt s h = ground arith

start_blocked :
    (m : Machine) (rt : Exec) (s : Sys)
    → is_hold_request rt ≡ true
    → ((run_cycle_start m rt s).state ≡ s.state)
      × ((run_cycle_start m rt s).suspend ≡ s.suspend)
      × ((run_cycle_start m rt s).calls ≡ s.calls)
unfolding run_cycle_start
start_blocked m rt s h = ground arith

stop_not_cycle :
    (rt : Exec) (s : Sys) → is_cycle s.state ≡ false → is_cycle (run_cycle_stop rt s).state ≡ false
unfolding run_cycle_stop
stop_not_cycle rt s h = ground arith

reload_not_cycle :
    (m : Machine) (s : Sys) → is_cycle s.state ≡ false → is_cycle (run_reload m s).state ≡ false
unfolding run_reload
reload_not_cycle m s h = ground arith

-- A round that meets a feed hold, a motion cancel or an open door, with no alarm and no reset, does
-- not leave the machine in a cycle, whatever its state was and whatever else is requested, a cycle
-- start included; and the loop does not return at once.
pub realtime_round_holds :
    (m : Machine) (s : Sys)
    → IsCalm s
    → is_hold_request s.exec ≡ true
    → (is_cycle (realtime_round m s).0.state ≡ false) × ((realtime_round m s).1 ≡ false)
unfolding run_requests
realtime_round_holds m s calm h =
    let t = run_status_report s.exec s in
    let (stopped, asked) = holds_stop s.exec t h in
    let held = run_holds s.exec t in
    let (same, _, _) = start_blocked m held.0 held.1 asked in
    rw (round_calm m s calm) (
      reload_not_cycle m (run_requests m s.exec s)
          (stop_not_cycle held.0 (run_cycle_start m held.0 held.1) (rw same stopped)),
      refl,
    )

-- The end of the round, where no door stands to be closed.
pub reload_keeps :
    (m : Machine) (s : Sys)
    → s.suspend.enable_ready ≡ false ⊎ (s.state ≢ State.safety_door)
    → ((run_reload m s).state ≡ s.state)
      × ((run_reload m s).suspend ≡ s.suspend)
      × ((run_reload m s).exec ≡ s.exec)
      × ((run_reload m s).alarms ≡ s.alarms)
unfolding run_reload
reload_keeps m s h = ground arith
