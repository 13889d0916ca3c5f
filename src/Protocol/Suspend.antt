-- ===== src/Protocol/Suspend.antt =====
-- protocol_exec_rt_suspend (protocol.c, lines 524 to 781), the suspend manager, and delay_sec
-- (nuts_bolts.c). Bytes arrive while the main program waits; `none` says that it still runs at the
-- end of the arrivals.
pub mod Returns
pub mod Quiet
pub mod Resets
use zephyr_grbl.Prelude.{if◌then◌else◌, ℕ, zero, suc, Bool, not, ◌||◌, Option, none, some, [], ◌∷◌}
use zephyr_grbl.Flags.{
  Byte, zero_byte, bit, ◌bor◌, ◌band◌, is_nonzero, bit_istrue, bit_isfalse, bit_true, bit_false,
}
use zephyr_grbl.System.{
  is_safety_door, is_sleep, Machine, call, set_suspend, set_step_control, report_feedback_message,
  st_go_idle, spindle_set_state, coolant_set_state,
}
use zephyr_grbl.System.Exec.{system_set_exec_state_flag}
use zephyr_grbl.System.Masks.{
  exec_cycle_start, suspend_hold_complete, suspend_restart_retract, suspend_retract_complete,
  suspend_initiate_restore, suspend_restore_complete, suspend_safety_door_ajar,
  step_control_update_spindle_pwm, spindle_stop_ovr_enabled, spindle_stop_ovr_initiate,
  spindle_stop_ovr_restore, spindle_stop_ovr_restore_cycle, spindle_stop_ovr_disabled,
  message_spindle_restore, message_sleep_mode,
}
use zephyr_grbl.Serial.{receive_commands}
use zephyr_grbl.Protocol.Realtime.{Arrivals, protocol_exec_rt_system}

-- What the function reads from elsewhere: restore_condition, computed before the loop from the
-- current block or from the modes, and the laser mode bit of the settings.
pub record Restore : Type 0 where
  pub condition : Byte
  pub laser_mode : Bool

-- Lines 557 and 558: restore_condition, for the condition of the current block, if there is one,
-- and coolant_get_state().
unfoldable pub restore_condition : Option Byte → Byte → Machine → Byte
restore_condition none coolant m = m.modal_spindle bor m.modal_coolant
restore_condition (some condition) coolant m = (condition band (bit 4 bor bit 5)) bor coolant

-- A call, and how the program goes on with what it leaves.
unfoldable pub and_then {ℓ} :
    {A : Type ℓ} → Option (Machine × Arrivals) → (Arrivals → Machine → Option A) → Option A
and_then none f = none
and_then (some (m, rx)) f = f rx m

-- A sleep of so many milliseconds (k_msleep): the bytes that arrive meanwhile.
unfoldable pub k_msleep : ℕ → Arrivals → Machine → Option (Machine × Arrivals)
k_msleep zero rx m = some (m, rx)
k_msleep (suc ms) [] m = none
k_msleep (suc ms) (cs ∷ rx) m = k_msleep ms rx (receive_commands cs m)

-- A round of a wait that does not sleep: the bytes that the interrupt receives in it.
unfoldable pub interrupted : Arrivals → Machine → Option (Machine × Arrivals)
interrupted [] m = none
interrupted (cs ∷ rx) m = some (receive_commands cs m, rx)

-- DWELL_TIME_STEP, in milliseconds
abbrev pub dwell_time_step : ℕ
dwell_time_step = 50

-- delay_sec in DELAY_MODE_SYS_SUSPEND, of `i` rounds.
unfoldable pub delay_sec : ℕ → Arrivals → Machine → Option (Machine × Arrivals)
delay_sec zero rx m = some (m, rx)
delay_sec (suc i) rx m =
    if m.sys.abort
    then some (m, rx)
    else and_then (protocol_exec_rt_system rx m) (λ rx1 m1.
      if bit_istrue m1.sys.suspend suspend_restart_retract
      then some (m1, rx1)
      else and_then (k_msleep dwell_time_step rx1 m1) (delay_sec i))

-- SAFETY_DOOR_SPINDLE_DELAY and SAFETY_DOOR_COOLANT_DELAY, 4.0 and 1.0 seconds of 50 ms.
abbrev pub spindle_delay : ℕ
spindle_delay = 80

abbrev pub coolant_delay : ℕ
coolant_delay = 20

abbrev pub set_stop_override : Byte → Machine → Machine
set_stop_override b m = record m { sys = record (m.sys) { spindle_stop_ovr = b } }

-- spindle_set_state(SPINDLE_DISABLE,0.0); coolant_set_state(COOLANT_DISABLE);
abbrev pub de_energize : Machine → Machine
de_energize m = call (coolant_set_state zero_byte) (call (spindle_set_state zero_byte) m)

-- Lines 574 to 642: the retraction, without PARKING_ENABLE.
unfoldable pub retract : Machine → Machine
retract m =
    set_suspend
      (bit_true (bit_false m.sys.suspend suspend_restart_retract) suspend_retract_complete)
      (de_energize (set_stop_override spindle_stop_ovr_disabled m))

-- spindle_set_state((restore_condition & (CW | CCW)), restore_spindle_speed)
abbrev pub restore_spindle_state : Restore → Machine → Machine
restore_spindle_state restore m =
    call (spindle_set_state (restore.condition band (bit 4 bor bit 5))) m

-- Lines 686 to 697.
unfoldable pub restore_spindle : Restore → Arrivals → Machine → Option (Machine × Arrivals)
restore_spindle restore rx m =
    if not (is_nonzero m.modal_spindle) || bit_istrue m.sys.suspend suspend_restart_retract
    then some (m, rx)
    else if restore.laser_mode
    then some (set_step_control (bit_true m.sys.step_control step_control_update_spindle_pwm) m, rx)
    else delay_sec spindle_delay rx (restore_spindle_state restore m)

-- Lines 698 to 705.
unfoldable pub restore_coolant : Restore → Arrivals → Machine → Option (Machine × Arrivals)
restore_coolant restore rx m =
    if not (is_nonzero m.modal_coolant) || bit_istrue m.sys.suspend suspend_restart_retract
    then some (m, rx)
    else delay_sec coolant_delay rx
        (call (coolant_set_state (restore.condition band (bit 6 bor bit 7))) m)

-- Lines 728 to 731: the program is resumed, unless the door has opened again.
unfoldable pub resume_program : Machine → Machine
resume_program m =
    if bit_istrue m.sys.suspend suspend_restart_retract
    then m
    else system_set_exec_state_flag exec_cycle_start
        (set_suspend (bit_true m.sys.suspend suspend_restore_complete) m)

-- Lines 658 to 662. system_check_safety_door_ajar() is 0 without ENABLE_SAFETY_DOOR_INPUT_PIN.
unfoldable pub check_door : Machine → Machine
check_door m =
    if is_safety_door m.sys.state
    then set_suspend (bit_false m.sys.suspend suspend_safety_door_ajar) m
    else m

-- Lines 665 to 732.
unfoldable pub restore_accessories : Restore → Arrivals → Machine → Option (Machine × Arrivals)
restore_accessories restore rx m =
    if bit_isfalse m.sys.suspend suspend_initiate_restore
    then some (m, rx)
    else and_then (restore_spindle restore rx m) (λ rx1 m1.
      and_then (restore_coolant restore rx1 m1) (λ rx2 m2. some (resume_program m2, rx2)))

-- Line 653: while (!(sys.abort)) { protocol_exec_rt_system(); }, without a sleep.
unfoldable pub sleep_until_abort : ℕ → Arrivals → Machine → Option (Machine × Arrivals)
sleep_until_abort zero rx m = if m.sys.abort then some (m, rx) else none
sleep_until_abort (suc fuel) rx m =
    if m.sys.abort
    then some (m, rx)
    else and_then (protocol_exec_rt_system rx m)
        (λ rx1 m1. and_then (interrupted rx1 m1) (sleep_until_abort fuel))

-- Lines 743 to 749: the spindle stop override begins.
unfoldable pub stop_override_initiate : Machine → Machine
stop_override_initiate m =
    if is_nonzero m.modal_spindle
    then set_stop_override spindle_stop_ovr_enabled (call (spindle_set_state zero_byte) m)
    else set_stop_override spindle_stop_ovr_disabled m

-- Lines 751 to 765: and ends.
unfoldable pub stop_override_restore : Restore → Machine → Machine
stop_override_restore restore m =
    let told : Machine = call (report_feedback_message message_spindle_restore) m in
    let spun : Machine =
      if not (is_nonzero m.modal_spindle)
      then m
      else if restore.laser_mode
      then set_step_control (bit_true m.sys.step_control step_control_update_spindle_pwm) told
      else restore_spindle_state restore told in
    set_stop_override spindle_stop_ovr_disabled (
      if bit_istrue m.sys.spindle_stop_ovr spindle_stop_ovr_restore_cycle
      then system_set_exec_state_flag exec_cycle_start spun
      else spun)

-- Lines 737 to 775: a feed hold, with the spindle stop override.
unfoldable pub hold_round : Restore → Machine → Machine
hold_round restore m =
    if is_nonzero m.sys.spindle_stop_ovr
    then (if bit_istrue m.sys.spindle_stop_ovr spindle_stop_ovr_initiate
        then stop_override_initiate m
        else if bit_istrue m.sys.spindle_stop_ovr
            (spindle_stop_ovr_restore bor spindle_stop_ovr_restore_cycle)
        then stop_override_restore restore m
        else m)
    else if bit_istrue m.sys.step_control step_control_update_spindle_pwm
    then set_step_control (bit_false m.sys.step_control step_control_update_spindle_pwm)
        (restore_spindle_state restore m)
    else m

-- Lines 647 to 652: the sleep mode, before the wait.
abbrev pub fall_asleep : Machine → Machine
fall_asleep m = call st_go_idle (de_energize (call (report_feedback_message message_sleep_mode) m))

-- Lines 567 to 777: a round of the loop after its sleep, and `next`, which follows it. The sleep mode
-- returns from the function at the end of its wait (line 654).
unfoldable pub suspend_round :
    ℕ
    → Restore
    → (Arrivals → Machine → Option (Machine × Arrivals))
    → Arrivals
    → Machine
    → Option (Machine × Arrivals)
suspend_round fuel restore next rx m =
    if bit_isfalse m.sys.suspend suspend_hold_complete
    then next rx m
    else if not (is_safety_door m.sys.state || is_sleep m.sys.state)
    then next rx (hold_round restore m)
    else if bit_isfalse m.sys.suspend suspend_retract_complete
    then next rx (retract m)
    else if is_sleep m.sys.state
    then sleep_until_abort fuel rx (fall_asleep m)
    else and_then (restore_accessories restore rx (check_door m)) next

-- Lines 561 to 780: the loop, with fuel for its rounds.
unfoldable pub suspend_loop : ℕ → Restore → Arrivals → Machine → Option (Machine × Arrivals)
suspend_loop zero restore rx m = if is_nonzero m.sys.suspend then none else some (m, rx)
suspend_loop (suc fuel) restore rx m =
    if not (is_nonzero m.sys.suspend)
    then some (m, rx)
    else and_then (k_msleep 1 rx m) (λ rx1 m1.
      if m1.sys.abort
      then some (m1, rx1)
      else suspend_round (suc fuel) restore
          (λ rx2 m2. and_then (protocol_exec_rt_system rx2 m2) (suspend_loop fuel restore)) rx1 m1)

abbrev pub arrivals_length : Arrivals → ℕ
arrivals_length [] = 0
arrivals_length (_ ∷ rx) = suc (arrivals_length rx)

-- protocol_exec_rt_suspend. Each round takes the bytes of a millisecond
-- at least, or those of a round of the wait for an abort.
unfoldable pub protocol_exec_rt_suspend : Restore → Arrivals → Machine → Option (Machine × Arrivals)
protocol_exec_rt_suspend restore rx m = suspend_loop (arrivals_length rx) restore rx m
