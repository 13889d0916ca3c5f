-- ===== src/Protocol/Holds.antt =====
-- The state machine of protocol_exec_rt_system: what the flags of sys_rt_exec_state make of
-- sys.state, sys.suspend and sys.step_control. `rt` is rt_exec, the copy of the flags.
pub mod Keeps
pub mod Requests
pub mod States
pub mod Resume
use zephyr_grbl.Prelude.{if◌then◌else◌, not, ◌&&◌, ◌||◌}
use zephyr_grbl.Flags.{Byte, bit, ◌bor◌, is_nonzero, bit_istrue, bit_isfalse, bit_true, bit_false}
use zephyr_grbl.Planner.{plan_reset_buffer, has_current_block}
use zephyr_grbl.System.{
  Machine, State, Call, idle, alarm, homing, cycle, hold, jog, safety_door, sleep, state_in,
  is_idle, is_alarm, is_jog, is_hold, is_safety_door, is_sleep, call, set_state, set_suspend,
  set_step_control, state_bits, report_feedback_message, report_realtime_status,
  st_update_plan_block_parameters, st_prep_buffer, st_wake_up, st_reset, plan_cycle_reinitialize,
  plan_sync_position, gc_sync_position,
}
use zephyr_grbl.System.Exec.{system_clear_exec_state_flag}
use zephyr_grbl.System.Masks.{
  exec_status_report, exec_cycle_start, exec_cycle_stop, exec_feed_hold, exec_safety_door,
  exec_motion_cancel, exec_sleep, suspend_hold_complete, suspend_restart_retract,
  suspend_retract_complete, suspend_initiate_restore, suspend_restore_complete,
  suspend_safety_door_ajar, suspend_motion_cancel, suspend_jog_cancel, step_control_execute_hold,
  step_control_execute_sys_motion, spindle_stop_ovr_restore_cycle, suspend_disable,
  step_control_normal_op, message_safety_door_ajar,
}

unfoldable pub status_report : Byte → Machine → Machine
status_report rt m =
    if bit_istrue rt exec_status_report
    then system_clear_exec_state_flag exec_status_report (call report_realtime_status m)
    else m

-- In CYCLE or JOG: start the deceleration, unless one is under way.
unfoldable pub hold_motion : Byte → Machine → Machine
hold_motion rt m =
    if state_in m.sys.state (state_bits cycle bor state_bits jog)
      && bit_isfalse m.sys.suspend (suspend_motion_cancel bor suspend_jog_cancel)
    then (let m' : Machine =
          set_step_control step_control_execute_hold (call st_update_plan_block_parameters m) in
        if is_jog m'.sys.state && bit_isfalse rt exec_sleep
        then set_suspend (bit_true m'.sys.suspend suspend_jog_cancel) m'
        else m')
    else m

-- In IDLE there is no motion: the hold is complete.
unfoldable pub hold_idle : Machine → Machine
hold_idle m = if is_idle m.sys.state then set_suspend suspend_hold_complete m else m

unfoldable pub motion_cancel : Byte → Machine → Machine
motion_cancel rt m =
    if bit_istrue rt exec_motion_cancel && not (state_in m.sys.state (state_bits jog))
    then set_suspend (bit_true m.sys.suspend suspend_motion_cancel) m
    else m

unfoldable pub feed_hold : Byte → Machine → Machine
feed_hold rt m =
    if bit_istrue rt exec_feed_hold
      && not (state_in m.sys.state (state_bits safety_door bor state_bits jog bor state_bits sleep))
    then set_state hold m
    else m

-- The door opened while restoring: restart the retraction. (PARKING_ENABLE is not defined.)
unfoldable pub restart_retract : Machine → Machine
restart_retract m =
    if is_safety_door m.sys.state && bit_istrue m.sys.suspend suspend_initiate_restore
    then set_suspend
        (bit_true
          (bit_false m.sys.suspend
            (suspend_retract_complete bor suspend_initiate_restore bor suspend_restore_complete))
          suspend_restart_retract)
        m
    else m

unfoldable pub enter_door : Machine → Machine
unfolding restart_retract
enter_door m =
    if bit_istrue m.sys.suspend suspend_jog_cancel
    then m
    else (let m' : Machine = restart_retract m in
        if is_sleep m'.sys.state then m' else set_state safety_door m')

unfoldable pub open_door : Byte → Machine → Machine
unfolding enter_door
open_door rt m =
    if bit_istrue rt exec_safety_door
    then (let m' : Machine =
          enter_door (call (report_feedback_message message_safety_door_ajar) m) in
        set_suspend (bit_true m'.sys.suspend suspend_safety_door_ajar) m')
    else m

unfoldable pub go_to_sleep : Byte → Machine → Machine
go_to_sleep rt m =
    if bit_istrue rt exec_sleep
    then set_state sleep (
        if is_alarm m.sys.state
        then set_suspend
            (bit_true m.sys.suspend (suspend_retract_complete bor suspend_hold_complete)) m
        else m)
    else m

abbrev pub hold_flags : Byte
hold_flags = exec_motion_cancel bor exec_feed_hold bor exec_safety_door bor exec_sleep

-- protocol.c, lines 261 to 335
unfoldable pub exec_holds : Byte → Machine → Machine
exec_holds rt m =
    if bit_istrue rt hold_flags
    then system_clear_exec_state_flag hold_flags (
        go_to_sleep rt (
          if state_in m.sys.state (state_bits alarm bor bit 1)
          then m
          else open_door rt (feed_hold rt (motion_cancel rt (hold_idle (hold_motion rt m))))))
    else m

-- A door that is closed and retracted resumes in two cycle starts: restore, then run.
unfoldable pub resume_door : Machine → Machine
resume_door m =
    if is_safety_door m.sys.state && bit_isfalse m.sys.suspend suspend_safety_door_ajar
    then (if bit_istrue m.sys.suspend suspend_restore_complete
        then set_state idle m
        else if bit_istrue m.sys.suspend suspend_retract_complete
        then set_suspend (bit_true m.sys.suspend suspend_initiate_restore) m
        else m)
    else m

unfoldable pub run_cycle : Machine → Machine
run_cycle m =
    let m' : Machine = set_step_control step_control_normal_op m in
    if has_current_block m'.planner && bit_isfalse m'.sys.suspend suspend_motion_cancel
    then call st_wake_up (call st_prep_buffer (set_state cycle (set_suspend suspend_disable m')))
    else set_state idle (set_suspend suspend_disable m')

unfoldable pub start_cycle : Machine → Machine
unfolding run_cycle
start_cycle m =
    if is_idle m.sys.state
      || (state_in m.sys.state (state_bits hold) && bit_istrue m.sys.suspend suspend_hold_complete)
    then (if is_hold m.sys.state && is_nonzero m.sys.spindle_stop_ovr
        then record m {
          sys = record (m.sys) {
            spindle_stop_ovr = bit_true m.sys.spindle_stop_ovr spindle_stop_ovr_restore_cycle;
          };
        }
        else run_cycle m)
    else m

-- protocol.c, lines 337 to 376
unfoldable pub exec_cycle_start_flag : Byte → Machine → Machine
exec_cycle_start_flag rt m =
    if bit_istrue rt exec_cycle_start
    then system_clear_exec_state_flag exec_cycle_start (
        if bit_isfalse rt (exec_feed_hold bor exec_motion_cancel bor exec_safety_door)
        then start_cycle (resume_door m)
        else m)
    else m

-- A hold has come to rest: replan from a stop, and stay until resumed.
unfoldable pub complete_hold : Machine → Machine
complete_hold m =
    let m' : Machine = call plan_cycle_reinitialize m in
    let m'' : Machine =
      if bit_istrue m'.sys.step_control step_control_execute_hold
      then set_suspend (bit_true m'.sys.suspend suspend_hold_complete) m'
      else m' in
    set_step_control
      (bit_false m''.sys.step_control
        (step_control_execute_hold bor step_control_execute_sys_motion))
      m''

-- Of the jog cancel: flush the buffers. plan_reset also clears the planner's position, which
-- plan_sync_position sets again.
unfoldable pub flush_jog : Machine → Machine
flush_jog m =
    if bit_istrue m.sys.suspend suspend_jog_cancel
    then call plan_sync_position (
        call gc_sync_position (
          call st_reset
            (record (set_step_control step_control_normal_op m) { planner = plan_reset_buffer })))
    else m

unfoldable pub complete_motion : Machine → Machine
unfolding flush_jog
complete_motion m =
    let m' : Machine = flush_jog m in
    if bit_istrue m'.sys.suspend suspend_safety_door_ajar
    then set_state safety_door (
        set_suspend (bit_true (bit_false m'.sys.suspend suspend_jog_cancel) suspend_hold_complete)
          m')
    else set_state idle (set_suspend suspend_disable m')

-- protocol.c, lines 378 to 411
unfoldable pub exec_cycle_stop_flag : Byte → Machine → Machine
exec_cycle_stop_flag rt m =
    if bit_istrue rt exec_cycle_stop
    then system_clear_exec_state_flag exec_cycle_stop (
        if state_in m.sys.state (state_bits hold bor state_bits safety_door bor state_bits sleep)
          && not m.sys.soft_limit
          && bit_isfalse m.sys.suspend suspend_jog_cancel
        then complete_hold m
        else complete_motion m)
    else m

-- protocol.c, lines 246 to 412, for a request without EXEC_RESET
unfoldable pub exec_state_flags : Byte → Machine → Machine
exec_state_flags rt m =
    if is_nonzero rt
    then exec_cycle_stop_flag rt (exec_cycle_start_flag rt (exec_holds rt (status_report rt m)))
    else m
