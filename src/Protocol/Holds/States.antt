-- ===== src/Protocol/Holds/States.antt =====
-- Which states of sys.state follow which, and what becomes of the flags.
use zephyr_grbl.Prelude.{if◌then◌else◌, ◌≡◌, ◌≢◌, ◌⊎◌, Bool, true, not, ◌&&◌, ◌||◌, arith}
use zephyr_grbl.Flags.{Byte, ◌bor◌, bit_istrue, bit_isfalse}
use zephyr_grbl.Planner.{has_current_block}
use zephyr_grbl.System.{
  Machine, State, idle, cycle, hold, safety_door, sleep, is_idle, is_jog, is_alarm, is_check_mode,
  is_sleep, is_safety_door,
}
use zephyr_grbl.System.Masks.{
  exec_cycle_start, exec_feed_hold, exec_safety_door, exec_motion_cancel, exec_sleep,
  suspend_hold_complete, suspend_restore_complete, suspend_safety_door_ajar, suspend_motion_cancel,
  suspend_jog_cancel,
}
use zephyr_grbl.Protocol.Holds.{
  hold_motion, hold_idle, motion_cancel, feed_hold, open_door, go_to_sleep, exec_holds, resume_door,
  start_cycle, exec_cycle_start_flag,
}

-- A jog is being cancelled, or the request cancels it. In IDLE the hold section overwrites
-- sys.suspend first.
abbrev pub jog_cancel_pending : Machine → Bool
jog_cancel_pending m =
    not (is_idle m.sys.state)
    && (bit_istrue m.sys.suspend suspend_jog_cancel
        || (is_jog m.sys.state && bit_isfalse m.sys.suspend suspend_motion_cancel))

-- The state that a request leads to, by priority: sleep, then the alarm and check mode locks, then
-- the door, then the feed hold.
abbrev pub hold_target : Byte → Machine → State
hold_target rt m =
    if bit_istrue rt exec_sleep
    then sleep
    else if is_alarm m.sys.state || is_check_mode m.sys.state
    then m.sys.state
    else if bit_istrue rt exec_safety_door
        && (not (is_sleep m.sys.state) && not (jog_cancel_pending m))
    then safety_door
    else if bit_istrue rt exec_feed_hold
        && not (is_safety_door m.sys.state || (is_jog m.sys.state || is_sleep m.sys.state))
    then hold
    else m.sys.state

-- The state after the hold section, for every state and every set of request flags.
pub exec_holds-state : (rt : Byte) (m : Machine) → (exec_holds rt m).sys.state ≡ hold_target rt m
unfolding exec_holds hold_motion hold_idle motion_cancel feed_hold open_door go_to_sleep
exec_holds-state rt m = ground arith

-- The cycle start section leads into CYCLE, from another state, only with a cycle start and a block
-- in the planner, without a pending motion cancel or a hold, cancel or door flag in the request,
-- and only from IDLE, a completed hold, or a closed door after the restore.
pub exec_cycle_start-cycle :
    (rt : Byte) (m : Machine)
    → (exec_cycle_start_flag rt m).sys.state ≡ cycle
    → m.sys.state ≢ cycle
    → (has_current_block m.planner ≡ true)
      × (bit_istrue rt exec_cycle_start ≡ true)
      × (bit_isfalse rt (exec_feed_hold bor exec_motion_cancel bor exec_safety_door) ≡ true)
      × (bit_isfalse m.sys.suspend suspend_motion_cancel ≡ true)
      × ((m.sys.state ≡ idle)
          ⊎ ((m.sys.state ≡ hold) × (bit_istrue m.sys.suspend suspend_hold_complete ≡ true))
          ⊎ ((m.sys.state ≡ safety_door)
              × (bit_isfalse m.sys.suspend suspend_safety_door_ajar ≡ true)
              × (bit_istrue m.sys.suspend suspend_restore_complete ≡ true)))
unfolding exec_cycle_start_flag resume_door start_cycle
exec_cycle_start-cycle rt m e ne = ground arith
