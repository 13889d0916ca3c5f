-- ===== src/Protocol/Realtime.antt =====
-- protocol_exec_rt_system (protocol.c, lines 219 to 516) as a whole.
pub mod Alarm
pub mod Effects
use mathlib.Core.Option
use zephyr_grbl.Prelude.{
  ◌==◌, if◌then◌else◌, ℕ, Bool, true, ◌||◌, Option, none, some, List, [], ◌∷◌, map,
}
use zephyr_grbl.Flags.{◌bor◌, bit_istrue, bit_isfalse}
use zephyr_grbl.System.{
  Machine, alarm, cycle, hold, jog, homing, safety_door, sleep, state_in, call, set_state,
  state_bits, report_alarm_message, report_feedback_message, st_prep_buffer,
}
use zephyr_grbl.System.Exec.{system_clear_exec_alarm, system_clear_exec_state_flag}
use zephyr_grbl.System.Masks.{
  exec_reset, exec_alarm_hard_limit, exec_alarm_soft_limit, message_critical_event,
}
use zephyr_grbl.Serial.{receive_commands}
use zephyr_grbl.Protocol.Holds.{exec_state_flags}
use zephyr_grbl.Protocol.Overrides.{exec_motion_overrides, exec_accessory_overrides}

-- What the UART interrupt receives while the main program waits: the bytes of each millisecond of a
-- sleep, and those of each round of a wait that does not sleep. Bytes that come during the short
-- sleeps between the sections of the executor (lines 251, 334, 370, 410, 441 and 499) are received
-- with those of the next wait.
abbrev pub Arrivals : Type 0
Arrivals = List (List ℕ)

-- do { k_msleep (1); } while (bit_isfalse(sys_rt_exec_state,EXEC_RESET));
-- `none`: the loop still waits at the end of the arrivals.
unfoldable pub wait_for_reset : Arrivals → Machine → Option (Machine × Arrivals)
wait_for_reset [] m = none
wait_for_reset (cs ∷ rest) m =
    let m' : Machine = receive_commands cs m in
    let again = wait_for_reset rest m' in
    if bit_isfalse m'.rt_exec_state exec_reset then again else some (m', rest)

-- The alarm is critical: hard or soft limit.
abbrev pub is_critical : ℕ → Bool
is_critical code = (code == exec_alarm_hard_limit) || (code == exec_alarm_soft_limit)

-- protocol.c, lines 222 to 243
unfoldable pub exec_alarm : Arrivals → Machine → Option (Machine × Arrivals)
exec_alarm rx m =
    if m.rt_exec_alarm == 0
    then some (m, rx)
    else (let m' : Machine = call (report_alarm_message m.rt_exec_alarm) (set_state alarm m) in
        if is_critical m.rt_exec_alarm
        then Option.map (λ r. (system_clear_exec_alarm r.0, r.1))
            (wait_for_reset rx (
              system_clear_exec_state_flag exec_reset
                (call (report_feedback_message message_critical_event) m')))
        else some (system_clear_exec_alarm m', rx))

-- protocol.c, lines 509 to 512
reload_segments : Machine → Machine
reload_segments m =
    if state_in m.sys.state (
      state_bits cycle
      bor state_bits hold
      bor state_bits safety_door
      bor state_bits homing
      bor state_bits sleep
      bor state_bits jog)
    then call st_prep_buffer m
    else m

-- protocol.c, lines 245 to 512
unfoldable pub exec_flags : Machine → Machine
unfolding reload_segments
exec_flags m =
    if bit_istrue m.rt_exec_state exec_reset
    then record m { sys = record (m.sys) { abort = true } }
    else reload_segments
        (exec_accessory_overrides (exec_motion_overrides (exec_state_flags m.rt_exec_state m)))

unfoldable pub protocol_exec_rt_system : Arrivals → Machine → Option (Machine × Arrivals)
protocol_exec_rt_system rx m = Option.map (λ r. (exec_flags r.0, r.1)) (exec_alarm rx m)
