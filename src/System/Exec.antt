-- ===== src/System/Exec.antt =====
-- The setters of the realtime flags (system.c), each atomic under irq_lock, and mc_reset
-- (motion_control.c).
use zephyr_grbl.Prelude.{ℕ, Bool, ◌||◌, ◌==◌, if◌then◌else◌}
use zephyr_grbl.Flags.{Byte, bit, zero_byte, bit_true, bit_false, bit_istrue, bit_isfalse, ◌bor◌}
use zephyr_grbl.System.Defs.{
  Machine, System, spindle_stop, coolant_stop, st_go_idle, call, state_in, is_homing,
}
use zephyr_grbl.System.Masks.{
  exec_reset, exec_alarm_homing_fail_reset, exec_alarm_abort_cycle, step_control_execute_hold,
  step_control_execute_sys_motion,
}

abbrev pub system_set_exec_state_flag : Byte → Machine → Machine
system_set_exec_state_flag mask m = record m { rt_exec_state = bit_true m.rt_exec_state mask }

abbrev pub system_clear_exec_state_flag : Byte → Machine → Machine
system_clear_exec_state_flag mask m = record m { rt_exec_state = bit_false m.rt_exec_state mask }

abbrev pub system_set_exec_alarm : ℕ → Machine → Machine
system_set_exec_alarm code m = record m { rt_exec_alarm = code }

abbrev pub system_clear_exec_alarm : Machine → Machine
system_clear_exec_alarm m = record m { rt_exec_alarm = 0 }

abbrev pub system_set_exec_motion_override_flag : Byte → Machine → Machine
system_set_exec_motion_override_flag mask m = record m {
  rt_exec_motion_override = bit_true m.rt_exec_motion_override mask;
}

abbrev pub system_set_exec_accessory_override_flag : Byte → Machine → Machine
system_set_exec_accessory_override_flag mask m = record m {
  rt_exec_accessory_override = bit_true m.rt_exec_accessory_override mask;
}

abbrev pub system_clear_exec_motion_overrides : Machine → Machine
system_clear_exec_motion_overrides m = record m { rt_exec_motion_override = zero_byte }

abbrev pub system_clear_exec_accessory_overrides : Machine → Machine
system_clear_exec_accessory_overrides m = record m { rt_exec_accessory_override = zero_byte }

-- The steppers are running or holding when the reset comes.
abbrev in_motion : System → Bool
in_motion s =
    state_in s.state (bit 3 bor bit 2 bor bit 5)
    || bit_istrue s.step_control (step_control_execute_hold bor step_control_execute_sys_motion)

-- `if (!sys_rt_exec_alarm)` guards the homing alarm only.
abbrev reset_alarm : Machine → ℕ
reset_alarm m =
    if is_homing m.sys.state
    then (if m.rt_exec_alarm == 0 then exec_alarm_homing_fail_reset else m.rt_exec_alarm)
    else exec_alarm_abort_cycle

kill_steppers : Machine → Machine
kill_steppers m = call st_go_idle (system_set_exec_alarm (reset_alarm m) m)

unfoldable pub mc_reset : Machine → Machine
unfolding kill_steppers
mc_reset m =
    if bit_isfalse m.rt_exec_state exec_reset
    then (let m' : Machine =
          call coolant_stop (call spindle_stop (system_set_exec_state_flag exec_reset m)) in
        if in_motion m'.sys then kill_steppers m' else m')
    else m
