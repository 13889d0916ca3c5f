-- ===== src/Serial/Command.antt =====
-- Realtime command characters (serial_check_real_time_command). `char` is unsigned on the targets
-- of this repository (ARM), so a received byte is a number below 256.
use zephyr_grbl.Prelude.{ℕ, Bool, true, false, List, [], ◌∷◌, ltb, ◌==◌, if◌then◌else◌}
use zephyr_grbl.System.{Machine, state_in}
use zephyr_grbl.Flags.{bit}
use zephyr_grbl.System.Exec.{
  mc_reset, system_set_exec_state_flag, system_set_exec_motion_override_flag,
  system_set_exec_accessory_override_flag,
}
use zephyr_grbl.System.Masks.{
  exec_status_report, exec_cycle_start, exec_feed_hold, exec_safety_door, exec_motion_cancel,
  exec_feed_ovr_reset, exec_feed_ovr_coarse_plus, exec_feed_ovr_coarse_minus,
  exec_feed_ovr_fine_plus, exec_feed_ovr_fine_minus, exec_rapid_ovr_reset, exec_rapid_ovr_medium,
  exec_rapid_ovr_low, exec_spindle_ovr_reset, exec_spindle_ovr_coarse_plus,
  exec_spindle_ovr_coarse_minus, exec_spindle_ovr_fine_plus, exec_spindle_ovr_fine_minus,
  exec_spindle_ovr_stop, exec_coolant_flood_ovr_toggle,
}

-- CMD_RESET, CMD_STATUS_REPORT, CMD_CYCLE_START, CMD_FEED_HOLD
abbrev pub cmd_reset : ℕ
cmd_reset = 0x18

abbrev pub cmd_status_report : ℕ
cmd_status_report = b'?'

abbrev pub cmd_cycle_start : ℕ
cmd_cycle_start = b'~'

abbrev pub cmd_feed_hold : ℕ
cmd_feed_hold = b'!'

-- The commands 0x84 to 0x97.
motion_command : ℕ → Machine → Machine
motion_command c m =
    if c == 0x84
    then system_set_exec_state_flag exec_safety_door m
    else if c == 0x85
    then (if state_in m.sys.state (bit 5)
        then system_set_exec_state_flag exec_motion_cancel m
        else m)
    else if c == 0x90
    then system_set_exec_motion_override_flag exec_feed_ovr_reset m
    else if c == 0x91
    then system_set_exec_motion_override_flag exec_feed_ovr_coarse_plus m
    else if c == 0x92
    then system_set_exec_motion_override_flag exec_feed_ovr_coarse_minus m
    else if c == 0x93
    then system_set_exec_motion_override_flag exec_feed_ovr_fine_plus m
    else if c == 0x94
    then system_set_exec_motion_override_flag exec_feed_ovr_fine_minus m
    else if c == 0x95
    then system_set_exec_motion_override_flag exec_rapid_ovr_reset m
    else if c == 0x96
    then system_set_exec_motion_override_flag exec_rapid_ovr_medium m
    else if c == 0x97
    then system_set_exec_motion_override_flag exec_rapid_ovr_low m
    else m

-- The commands 0x99 to 0xa0 (0xa1 is compiled in with ENABLE_M7 only).
accessory_command : ℕ → Machine → Machine
accessory_command c m =
    if c == 0x99
    then system_set_exec_accessory_override_flag exec_spindle_ovr_reset m
    else if c == 0x9A
    then system_set_exec_accessory_override_flag exec_spindle_ovr_coarse_plus m
    else if c == 0x9B
    then system_set_exec_accessory_override_flag exec_spindle_ovr_coarse_minus m
    else if c == 0x9C
    then system_set_exec_accessory_override_flag exec_spindle_ovr_fine_plus m
    else if c == 0x9D
    then system_set_exec_accessory_override_flag exec_spindle_ovr_fine_minus m
    else if c == 0x9E
    then system_set_exec_accessory_override_flag exec_spindle_ovr_stop m
    else if c == 0xA0
    then system_set_exec_accessory_override_flag exec_coolant_flood_ovr_toggle m
    else m

-- The result says whether the byte was a realtime command; unknown bytes above 0x7F count as one,
-- so that they are dropped.
unfoldable pub serial_check_real_time_command : ℕ → Machine → Bool × Machine
unfolding motion_command accessory_command
serial_check_real_time_command c m =
    if c == cmd_reset
    then (true, mc_reset m)
    else if c == cmd_status_report
    then (true, system_set_exec_state_flag exec_status_report m)
    else if c == cmd_cycle_start
    then (true, system_set_exec_state_flag exec_cycle_start m)
    else if c == cmd_feed_hold
    then (true, system_set_exec_state_flag exec_feed_hold m)
    else if ltb 0x7F c
    then (true, if ltb c 0x98 then motion_command c m else accessory_command c m)
    else (false, m)

-- The realtime effect of the bytes that the interrupt handler reads.
unfoldable pub receive_commands : List ℕ → Machine → Machine
receive_commands [] m = m
receive_commands (c ∷ cs) m = receive_commands cs (serial_check_real_time_command c m).1
