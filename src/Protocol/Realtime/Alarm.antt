-- ===== src/Protocol/Realtime/Alarm.antt =====
-- Alarms in a round of the realtime loop.
use cpcbm.Base.{true, false, if◌then◌else◌, ◌≡◌, ◌≢◌, ap, ◌∙◌, arith, inr}
use cpcbm.System.{State, Exec, Sys, no_alarms}
use cpcbm.Protocol.Realtime.{
  Machine, any_alarm, run_alarms, run_status_report, run_holds, run_cycle_start, run_cycle_stop,
  run_requests, run_reload, realtime_round,
}
use cpcbm.Protocol.Realtime.States.{reload_keeps}

alarms_raise :
    (s : Sys)
    → any_alarm s.alarms ≡ true
    → s.alarms.critical_event ≡ false
    → ((run_alarms s).state ≡ State.alarm)
      × ((run_alarms s).alarms ≡ no_alarms)
      × ((run_alarms s).exec ≡ s.exec)
unfolding run_alarms
alarms_raise s a c = ground arith

status_alarm :
    (rt : Exec) (s : Sys)
    → s.state ≡ State.alarm
    → s.alarms ≡ no_alarms
    → ((run_status_report rt s).state ≡ State.alarm) × ((run_status_report rt s).alarms ≡ no_alarms)
unfolding run_status_report
status_alarm rt s h a = ground arith

holds_alarm :
    (rt : Exec) (s : Sys)
    → s.state ≡ State.alarm
    → s.alarms ≡ no_alarms
    → ((run_holds rt s).1.state ≡ State.alarm)
      × ((run_holds rt s).1.alarms ≡ no_alarms)
      × ((run_holds rt s).0 ≡ rt)
unfolding run_holds
holds_alarm rt s h a = ground arith

start_alarm :
    (m : Machine) (rt : Exec) (s : Sys)
    → s.state ≡ State.alarm
    → s.alarms ≡ no_alarms
    → ((run_cycle_start m rt s).state ≡ State.alarm) × ((run_cycle_start m rt s).alarms ≡ no_alarms)
unfolding run_cycle_start
start_alarm m rt s h a = ground arith

stop_alarm :
    (rt : Exec) (s : Sys)
    → s.state ≡ State.alarm
    → s.alarms ≡ no_alarms
    → ((run_cycle_stop rt s).state ≡ (if rt.cycle_stop then State.idle else State.alarm))
      × ((run_cycle_stop rt s).alarms ≡ no_alarms)
      × ((run_cycle_stop rt s).state ≢ State.safety_door)
unfolding run_cycle_stop
stop_alarm rt s h a = ground arith

requests_alarm :
    (m : Machine) (rt : Exec) (s : Sys)
    → s.state ≡ State.alarm
    → s.alarms ≡ no_alarms
    → ((run_requests m rt s).state ≡ (if rt.cycle_stop then State.idle else State.alarm))
      × ((run_requests m rt s).alarms ≡ no_alarms)
      × ((run_requests m rt s).state ≢ State.safety_door)
unfolding run_requests
requests_alarm m rt s h a =
    let (h1, a1) = status_alarm rt s h a in
    let (h2, a2, same) = holds_alarm rt (run_status_report rt s) h1 a1 in
    let held = run_holds rt (run_status_report rt s) in
    let (h3, a3) = start_alarm m held.0 held.1 h2 a2 in
    let (p, q, n) = stop_alarm held.0 (run_cycle_start m held.0 held.1) h3 a3 in
    (p ∙ ap (λ e. if e.cycle_stop then State.idle else State.alarm) same, q, n)

round_on :
    (m : Machine) (s : Sys)
    → (run_alarms s).exec.reset ≡ false
    → realtime_round m s ≡ (run_reload m (run_requests m (run_alarms s).exec (run_alarms s)), false)
unfolding realtime_round
round_on m s h = ground arith

-- An alarm that is not critical, with no reset requested, is cleared, and leaves the machine in
-- alarm; but if a cycle stop is requested as well, the same round makes it idle.
pub realtime_round_alarm :
    (m : Machine) (s : Sys)
    → any_alarm s.alarms ≡ true
    → s.alarms.critical_event ≡ false
    → s.exec.reset ≡ false
    → ((realtime_round m s).0.state ≡ (if s.exec.cycle_stop then State.idle else State.alarm))
      × ((realtime_round m s).0.alarms ≡ no_alarms)
realtime_round_alarm m s a c r =
    let (h, q, e) = alarms_raise s a c in
    let (p, k, n) = requests_alarm m (run_alarms s).exec (run_alarms s) h q in
    let (f, _, _, g) = reload_keeps m (run_requests m (run_alarms s).exec (run_alarms s)) (inr n) in
    rw (round_on m s (ap (λ rt. rt.reset) e ∙ r))
      (f ∙ p ∙ ap (λ rt. if rt.cycle_stop then State.idle else State.alarm) e, g ∙ k)
