-- ===== src/Tests/ProtocolTests.antt =====
-- The executor and the line reader at concrete inputs.
use zephyr_grbl.Prelude.{length, ℕ, ◌<◌, ◌≡◌, refl, ◌⊎◌, true, some, List, [], ◌∷◌, arith}
use zephyr_grbl.Flags.{zero_byte, ◌bor◌, bit_istrue, bit_isfalse}
use zephyr_grbl.System.{
  Machine, idle, hold, alarm, cycle, safety_door, report_feedback_message, report_alarm_message,
  coolant_stop, spindle_stop,
}
use zephyr_grbl.System.Masks.{
  exec_status_report, exec_cycle_start, exec_cycle_stop, exec_feed_hold, exec_reset,
  exec_safety_door, exec_motion_cancel, exec_feed_ovr_coarse_minus, exec_feed_ovr_fine_minus,
  suspend_hold_complete, suspend_restore_complete, suspend_safety_door_ajar, suspend_motion_cancel,
  exec_alarm_hard_limit, message_critical_event,
}
use zephyr_grbl.Protocol.Holds.{
  exec_holds, resume_door, start_cycle, exec_cycle_start_flag, exec_state_flags,
}
use zephyr_grbl.Protocol.Holds.Requests.{exec_state_flags-served}
use zephyr_grbl.Protocol.Holds.States.{exec_holds-state, exec_cycle_start-cycle}
use zephyr_grbl.Protocol.Holds.Resume.{IsRunning, IsHolding, IsHeld, hold-resume}
use zephyr_grbl.Protocol.Overrides.{new_f_override}
use zephyr_grbl.Protocol.Overrides.Bounds.{InLimits, new_f_override_exact}
use zephyr_grbl.Protocol.Realtime.{protocol_exec_rt_system, exec_flags, exec_alarm, wait_for_reset}
use zephyr_grbl.Protocol.Realtime.Alarm.{critical-aborts, critical-returns, returned}
use zephyr_grbl.Protocol.Realtime.Effects.{exec_flags-InLimits}
use zephyr_grbl.Protocol.Reader.{read_chars, end_line, empty_reader, gcode_line}
use zephyr_grbl.Protocol.Reader.Lines.{end_line-read_chars, length-read_chars, visible}
use zephyr_grbl.Planner.{has_current_block}
use zephyr_grbl.Serial.{serial_check_real_time_command, receive_commands}
use zephyr_grbl.System.Exec.{mc_reset}
use zephyr_grbl.Tests.Machines.{ready_machine}

-- A hard limit has tripped.
abbrev tripped : Machine
tripped = record ready_machine { rt_exec_alarm = exec_alarm_hard_limit }

-- A cycle is running.
abbrev running : Machine
running = record ready_machine { sys = record (ready_machine.sys) { state = cycle } }

-- A status report and a feed hold are requested in a cycle.
abbrev requesting : Machine
requesting = record running { rt_exec_state = exec_status_report bor exec_feed_hold }

-- A '?', then a reset.
abbrev rx : List (List ℕ)
rx = (b'?' ∷ []) ∷ (24 ∷ []) ∷ []

requesting-InLimits : InLimits requesting.sys
requesting-InLimits = ground arith

running-IsRunning : IsRunning running
unfolding has_current_block
running-IsRunning = ground arith

-- The machine and the bytes left when the executor returns.
abbrev served : Machine × List (List ℕ)
served = (
  record tripped {
    sys = record (tripped.sys) { state = alarm; abort = true };
    rt_exec_state = exec_reset bor exec_status_report;
    rt_exec_alarm = 0;
    calls =
        coolant_stop
        ∷ spindle_stop
        ∷ report_feedback_message message_critical_event
        ∷ report_alarm_message exec_alarm_hard_limit
        ∷ [];
  },
  [],
)

-- The reset character ends the wait, and what came before it is kept.
tripped-served : protocol_exec_rt_system rx tripped ≡ some served
unfolding protocol_exec_rt_system exec_alarm wait_for_reset receive_commands
    serial_check_real_time_command mc_reset exec_flags
tripped-served = refl

critical-aborts_example :
    (served.0.sys.abort ≡ true)
    × (served.0.sys.state ≡ alarm)
    × (served.0.rt_exec_alarm ≡ 0)
    × (bit_istrue served.0.rt_exec_state exec_reset ≡ true)
critical-aborts_example = critical-aborts rx tripped served refl tripped-served

critical-returns_example : returned (protocol_exec_rt_system rx tripped) ≡ true
critical-returns_example = critical-returns rx tripped refl

hold-resume_example :
    IsHolding (exec_state_flags exec_feed_hold running)
    × IsHeld (exec_state_flags exec_cycle_stop (exec_state_flags exec_feed_hold running))
    × IsRunning (
        exec_state_flags exec_cycle_start
          (exec_state_flags exec_cycle_stop (exec_state_flags exec_feed_hold running)))
hold-resume_example = hold-resume running running-IsRunning

exec_state_flags-served_example :
    (exec_state_flags requesting.rt_exec_state requesting).rt_exec_state ≡ zero_byte
exec_state_flags-served_example = exec_state_flags-served requesting refl

exec_holds-state_example : (exec_holds exec_feed_hold running).sys.state ≡ hold
exec_holds-state_example = exec_holds-state exec_feed_hold running

new_f_override_exact_example :
    new_f_override (exec_feed_ovr_coarse_minus bor exec_feed_ovr_fine_minus) 10 ≡ 200
new_f_override_exact_example =
    new_f_override_exact (exec_feed_ovr_coarse_minus bor exec_feed_ovr_fine_minus) 10 (omega arith)
      (omega arith)

exec_flags-InLimits_example : InLimits (exec_flags requesting).sys
exec_flags-InLimits_example = exec_flags-InLimits requesting requesting-InLimits

-- "g1 x(far)2;end"
abbrev text : List ℕ
text =
    b'g' ∷ b'1' ∷ b' ' ∷ b'x' ∷ b'(' ∷ b'f' ∷ b'a' ∷ b'r' ∷ b')' ∷ b'2' ∷ b';' ∷ b'e' ∷ b'n' ∷ b'd'
    ∷ []

end_line-read_chars_example :
    end_line idle (read_chars text empty_reader)
    ≡ (gcode_line (b'G' ∷ b'1' ∷ b'X' ∷ b'2' ∷ []), empty_reader)
unfolding visible
end_line-read_chars_example = end_line-read_chars idle text

length-read_chars_example : length (read_chars text empty_reader).line < 80
length-read_chars_example = length-read_chars text

-- Ready in IDLE, with a block in the planner.
exec_cycle_start-cycle_example :
    (has_current_block ready_machine.planner ≡ true)
    × (bit_istrue exec_cycle_start exec_cycle_start ≡ true)
    × (bit_isfalse exec_cycle_start (exec_feed_hold bor exec_motion_cancel bor exec_safety_door)
        ≡ true)
    × (bit_isfalse ready_machine.sys.suspend suspend_motion_cancel ≡ true)
    × ((ready_machine.sys.state ≡ idle)
        ⊎ ((ready_machine.sys.state ≡ hold)
            × (bit_istrue ready_machine.sys.suspend suspend_hold_complete ≡ true))
        ⊎ ((ready_machine.sys.state ≡ safety_door)
            × (bit_isfalse ready_machine.sys.suspend suspend_safety_door_ajar ≡ true)
            × (bit_istrue ready_machine.sys.suspend suspend_restore_complete ≡ true)))
unfolding exec_cycle_start_flag start_cycle resume_door has_current_block
exec_cycle_start-cycle_example =
    exec_cycle_start-cycle exec_cycle_start ready_machine refl (λ e. ground arith)
