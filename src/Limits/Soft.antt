-- ===== src/Limits/Soft.antt =====
-- The soft limit check, on every path.
use cpcbm.Base.{
  ℕ, zero, suc, ◌≡◌, ◌<◌, arith, Bool, true, false, ◌||◌, some, if◌then◌else◌, refl, inl, inr,
  Bool-cases,
}
use cpcbm.Base.Real.{Real, Vec}
use cpcbm.System.{Sys}
use cpcbm.MotionControl.{mc_reset}
use cpcbm.Limits.{
  is_running, is_idle_state, wait_idle, stop_at_limit, check_axes, limits_soft_check,
}

module _ (real : Real) (protocol_execute_realtime : Sys → Sys) where
  open real use {R, decimal, lt}

  abbrev pub leaves_workspace : Vec R → Vec R → Bool
  leaves_workspace target max_travel =
      (lt (decimal 0 0) target.x || lt target.x max_travel.x)
      || ((lt (decimal 0 0) target.y || lt target.y max_travel.y)
          || (lt (decimal 0 0) target.z || lt target.z max_travel.z))

  -- The state at the feed hold that a soft limit asks for.
  abbrev pub hold : Sys → Sys
  hold s = record s { soft_limit = true; exec = record s.exec { feed_hold = true } }

  unfoldable pub rounds : ℕ → Sys → Sys
  rounds zero s = s
  rounds (suc n) s = rounds n (protocol_execute_realtime s)

  -- The wait is over.
  abbrev pub is_over : Sys → Bool
  is_over s = s.abort || is_idle_state s.state

  -- One realtime round behind the reset, on both alarms.
  abbrev pub alarmed : Sys → Sys
  alarmed s =
      let reset = mc_reset s in
      protocol_execute_realtime
        (record reset { alarms = record reset.alarms { soft_limit = true; critical_event = true } })

  -- What follows the wait.
  abbrev pub after_wait : Sys → Sys
  after_wait s = if s.abort then s else alarmed s

  -- The fuel for one round more than those that do not end the wait is enough.
  wait_idle-rounds :
      (n : ℕ) (s : Sys)
      → ((k : ℕ) → k < n → is_over (rounds (suc k) s) ≡ false)
      → is_over (rounds (suc n) s) ≡ true
      → wait_idle real protocol_execute_realtime (suc n) s ≡ some (after_wait (rounds (suc n) s))
  unfolding wait_idle rounds
  wait_idle-rounds zero s h e = ground arith
  wait_idle-rounds (suc n) s h e =
      let t = protocol_execute_realtime s in
      let going : is_over t ≡ false = h 0 (omega arith) in
      let rest = wait_idle-rounds n t (λ k l. h (suc k) (omega (arith, l))) e in
      ground (arith, going, rest)

  wait_ends :
      (n : ℕ) (s : Sys)
      → (is_running s.state ≡ true → (k : ℕ) → k < n → is_over (rounds (suc k) (hold s)) ≡ false)
      → (is_running s.state ≡ true → is_over (rounds (suc n) (hold s)) ≡ true)
      → stop_at_limit real protocol_execute_realtime (suc n) (record s { soft_limit = true })
        ≡ some (
            if is_running s.state
            then after_wait (rounds (suc n) (hold s))
            else alarmed (record s { soft_limit = true }))
  unfolding stop_at_limit
  wait_ends n s going over = elim (Bool-cases (is_running s.state)) [
    | inl e ↦ rw e (wait_idle-rounds n (hold s) (going e) (over e))
    | inr e ↦ rw e refl
  ]

  checked :
      (n : ℕ) (target max_travel : Vec R) (s : Sys)
      → s.soft_limit ≡ false
      → limits_soft_check real protocol_execute_realtime n target max_travel s ≡ (
          if leaves_workspace target max_travel
          then stop_at_limit real protocol_execute_realtime n (record s { soft_limit = true })
          else some s)
  unfolding limits_soft_check check_axes
  checked n target max_travel s h = ground arith

  -- The machine has not passed a soft limit before. A target within the workspace on all three axes
  -- changes nothing. For any other target the flag is set; a machine in a cycle is asked for a feed
  -- hold first, and realtime rounds are run until it is idle or aborted, here n + 1 of them; unless it
  -- is aborted, a reset is made, both alarms are raised, and one realtime round is run on them.
  pub limits_soft_check_lem :
      (n : ℕ) (target max_travel : Vec R) (s : Sys)
      → s.soft_limit ≡ false
      → (leaves_workspace target max_travel ≡ true
          → is_running s.state ≡ true
          → (k : ℕ) → k < n
          → is_over (rounds (suc k) (hold s)) ≡ false)
      → (leaves_workspace target max_travel ≡ true
          → is_running s.state ≡ true
          → is_over (rounds (suc n) (hold s)) ≡ true)
      → limits_soft_check real protocol_execute_realtime (suc n) target max_travel s ≡ (
          if leaves_workspace target max_travel
          then some (
              if is_running s.state
              then after_wait (rounds (suc n) (hold s))
              else alarmed (record s { soft_limit = true }))
          else some s)
  limits_soft_check_lem n target max_travel s h going over =
      elim (Bool-cases (leaves_workspace target max_travel)) [
        | inl out ↦
            rw (checked (suc n) target max_travel s h, out) (wait_ends n s (going out) (over out))
        | inr in_it ↦ rw (checked (suc n) target max_travel s h, in_it) refl
      ]
