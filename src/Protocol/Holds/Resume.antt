-- ===== src/Protocol/Holds/Resume.antt =====
-- A feed hold and its resume, from the request to the running cycle.
use zephyr_grbl.Prelude.{◌≡◌, true, false, arith}
use zephyr_grbl.Flags.{bit_istrue, bit_isfalse}
use zephyr_grbl.Planner.{has_current_block}
use zephyr_grbl.System.{Machine, cycle, hold}
use zephyr_grbl.System.Masks.{
  exec_cycle_start, exec_cycle_stop, exec_feed_hold, suspend_hold_complete, suspend_motion_cancel,
  step_control_execute_hold, suspend_disable, step_control_normal_op, spindle_stop_ovr_disabled,
}
use zephyr_grbl.Protocol.Holds.{
  exec_state_flags, status_report, exec_holds, hold_motion, hold_idle, motion_cancel, feed_hold,
  open_door, go_to_sleep, exec_cycle_start_flag, resume_door, start_cycle, exec_cycle_stop_flag,
  complete_hold, complete_motion,
}

-- A cycle that runs normally, with a block to execute.
pub record IsRunning (m : Machine) : Type 0 where
  pub running : m.sys.state ≡ cycle
  pub not_suspended : m.sys.suspend ≡ suspend_disable
  pub normal : m.sys.step_control ≡ step_control_normal_op
  pub no_soft_limit : m.sys.soft_limit ≡ false
  pub spindle_on : m.sys.spindle_stop_ovr ≡ spindle_stop_ovr_disabled
  pub queued : has_current_block m.planner ≡ true

-- The steppers decelerate; nothing resumes yet.
pub record IsHolding (m : Machine) : Type 0 where
  pub held : m.sys.state ≡ hold
  pub not_complete : m.sys.suspend ≡ suspend_disable
  pub decelerating : m.sys.step_control ≡ step_control_execute_hold
  pub no_soft_limit : m.sys.soft_limit ≡ false
  pub spindle_on : m.sys.spindle_stop_ovr ≡ spindle_stop_ovr_disabled
  pub queued : has_current_block m.planner ≡ true

IsRunning-hold : (m : Machine) → IsRunning m → IsHolding (exec_state_flags exec_feed_hold m)
unfolding exec_state_flags status_report exec_holds hold_motion hold_idle motion_cancel feed_hold
    open_door go_to_sleep exec_cycle_start_flag resume_door start_cycle exec_cycle_stop_flag
    complete_hold complete_motion
IsRunning-hold m v = ground arith

-- The steppers have come to rest.
pub record IsHeld (m : Machine) : Type 0 where
  pub held : m.sys.state ≡ hold
  pub complete : bit_istrue m.sys.suspend suspend_hold_complete ≡ true
  pub not_cancelled : bit_isfalse m.sys.suspend suspend_motion_cancel ≡ true
  pub spindle_on : m.sys.spindle_stop_ovr ≡ spindle_stop_ovr_disabled
  pub no_soft_limit : m.sys.soft_limit ≡ false
  pub queued : has_current_block m.planner ≡ true

IsHolding-cycle_stop : (m : Machine) → IsHolding m → IsHeld (exec_state_flags exec_cycle_stop m)
unfolding exec_state_flags status_report exec_holds hold_motion hold_idle motion_cancel feed_hold
    open_door go_to_sleep exec_cycle_start_flag resume_door start_cycle exec_cycle_stop_flag
    complete_hold complete_motion
IsHolding-cycle_stop m v = ground arith

IsHeld-cycle_start : (m : Machine) → IsHeld m → IsRunning (exec_state_flags exec_cycle_start m)
unfolding exec_state_flags status_report exec_holds hold_motion hold_idle motion_cancel feed_hold
    open_door go_to_sleep exec_cycle_start_flag resume_door start_cycle exec_cycle_stop_flag
    complete_hold complete_motion
IsHeld-cycle_start m v = ground arith

-- The three passes of a feed hold: the request, the stop of the steppers, and the cycle start.
pub hold-resume :
    (m : Machine)
    → IsRunning m
    → let m1 = exec_state_flags exec_feed_hold m in
      let m2 = exec_state_flags exec_cycle_stop m1 in
      IsHolding m1 × IsHeld m2 × IsRunning (exec_state_flags exec_cycle_start m2)
hold-resume m v =
    let h1 = IsRunning-hold m v in
    let h2 = IsHolding-cycle_stop _ h1 in (h1, h2, IsHeld-cycle_start _ h2)
