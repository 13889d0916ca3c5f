-- ===== src/System/Masks.antt =====
-- The bit maps and codes of deps/gnea-grbl/grbl/system.h, planner.h, report.h and config.h.
use zephyr_grbl.Prelude.{ℕ}
use zephyr_grbl.Flags.{Byte, bit, zero_byte}

-- The realtime execution flags, sys_rt_exec_state (system.h, EXEC_*).
abbrev pub exec_status_report : Byte
exec_status_report = bit 0

abbrev pub exec_cycle_start : Byte
exec_cycle_start = bit 1

abbrev pub exec_cycle_stop : Byte
exec_cycle_stop = bit 2

abbrev pub exec_feed_hold : Byte
exec_feed_hold = bit 3

abbrev pub exec_reset : Byte
exec_reset = bit 4

abbrev pub exec_safety_door : Byte
exec_safety_door = bit 5

abbrev pub exec_motion_cancel : Byte
exec_motion_cancel = bit 6

abbrev pub exec_sleep : Byte
exec_sleep = bit 7

-- sys_rt_exec_motion_override
abbrev pub exec_feed_ovr_reset : Byte
exec_feed_ovr_reset = bit 0

abbrev pub exec_feed_ovr_coarse_plus : Byte
exec_feed_ovr_coarse_plus = bit 1

abbrev pub exec_feed_ovr_coarse_minus : Byte
exec_feed_ovr_coarse_minus = bit 2

abbrev pub exec_feed_ovr_fine_plus : Byte
exec_feed_ovr_fine_plus = bit 3

abbrev pub exec_feed_ovr_fine_minus : Byte
exec_feed_ovr_fine_minus = bit 4

abbrev pub exec_rapid_ovr_reset : Byte
exec_rapid_ovr_reset = bit 5

abbrev pub exec_rapid_ovr_medium : Byte
exec_rapid_ovr_medium = bit 6

abbrev pub exec_rapid_ovr_low : Byte
exec_rapid_ovr_low = bit 7

-- sys_rt_exec_accessory_override
abbrev pub exec_spindle_ovr_reset : Byte
exec_spindle_ovr_reset = bit 0

abbrev pub exec_spindle_ovr_coarse_plus : Byte
exec_spindle_ovr_coarse_plus = bit 1

abbrev pub exec_spindle_ovr_coarse_minus : Byte
exec_spindle_ovr_coarse_minus = bit 2

abbrev pub exec_spindle_ovr_fine_plus : Byte
exec_spindle_ovr_fine_plus = bit 3

abbrev pub exec_spindle_ovr_fine_minus : Byte
exec_spindle_ovr_fine_minus = bit 4

abbrev pub exec_spindle_ovr_stop : Byte
exec_spindle_ovr_stop = bit 5

abbrev pub exec_coolant_flood_ovr_toggle : Byte
exec_coolant_flood_ovr_toggle = bit 6

abbrev pub exec_coolant_mist_ovr_toggle : Byte
exec_coolant_mist_ovr_toggle = bit 7

-- sys.suspend
abbrev pub suspend_hold_complete : Byte
suspend_hold_complete = bit 0

abbrev pub suspend_restart_retract : Byte
suspend_restart_retract = bit 1

abbrev pub suspend_retract_complete : Byte
suspend_retract_complete = bit 2

abbrev pub suspend_initiate_restore : Byte
suspend_initiate_restore = bit 3

abbrev pub suspend_restore_complete : Byte
suspend_restore_complete = bit 4

abbrev pub suspend_safety_door_ajar : Byte
suspend_safety_door_ajar = bit 5

abbrev pub suspend_motion_cancel : Byte
suspend_motion_cancel = bit 6

abbrev pub suspend_jog_cancel : Byte
suspend_jog_cancel = bit 7

-- sys.step_control
abbrev pub step_control_end_motion : Byte
step_control_end_motion = bit 0

abbrev pub step_control_execute_hold : Byte
step_control_execute_hold = bit 1

abbrev pub step_control_execute_sys_motion : Byte
step_control_execute_sys_motion = bit 2

abbrev pub step_control_update_spindle_pwm : Byte
step_control_update_spindle_pwm = bit 3

-- sys.spindle_stop_ovr
abbrev pub spindle_stop_ovr_enabled : Byte
spindle_stop_ovr_enabled = bit 0

abbrev pub spindle_stop_ovr_initiate : Byte
spindle_stop_ovr_initiate = bit 1

abbrev pub spindle_stop_ovr_restore : Byte
spindle_stop_ovr_restore = bit 2

abbrev pub spindle_stop_ovr_restore_cycle : Byte
spindle_stop_ovr_restore_cycle = bit 3

-- SUSPEND_DISABLE, STEP_CONTROL_NORMAL_OP, SPINDLE_STOP_OVR_DISABLED
abbrev pub suspend_disable : Byte
suspend_disable = zero_byte

abbrev pub step_control_normal_op : Byte
step_control_normal_op = zero_byte

abbrev pub spindle_stop_ovr_disabled : Byte
spindle_stop_ovr_disabled = zero_byte

-- COOLANT_FLOOD_ENABLE, the planner's PL_COND_FLAG_COOLANT_FLOOD
abbrev pub coolant_flood_enable : Byte
coolant_flood_enable = bit 6

-- Alarm codes
abbrev pub exec_alarm_hard_limit : ℕ
exec_alarm_hard_limit = 1

abbrev pub exec_alarm_soft_limit : ℕ
exec_alarm_soft_limit = 2

abbrev pub exec_alarm_abort_cycle : ℕ
exec_alarm_abort_cycle = 3

abbrev pub exec_alarm_homing_fail_reset : ℕ
exec_alarm_homing_fail_reset = 6

-- Feedback messages
abbrev pub message_critical_event : ℕ
message_critical_event = 1

abbrev pub message_alarm_lock : ℕ
message_alarm_lock = 2

abbrev pub message_alarm_unlock : ℕ
message_alarm_unlock = 3

abbrev pub message_enabled : ℕ
message_enabled = 4

abbrev pub message_disabled : ℕ
message_disabled = 5

abbrev pub message_safety_door_ajar : ℕ
message_safety_door_ajar = 6

abbrev pub message_check_limits : ℕ
message_check_limits = 7

abbrev pub message_restore_defaults : ℕ
message_restore_defaults = 9

-- Overrides, in percent
abbrev pub default_feed_override : ℕ
default_feed_override = 100

abbrev pub max_feed_rate_override : ℕ
max_feed_rate_override = 200

abbrev pub min_feed_rate_override : ℕ
min_feed_rate_override = 10

abbrev pub feed_override_coarse_increment : ℕ
feed_override_coarse_increment = 10

abbrev pub feed_override_fine_increment : ℕ
feed_override_fine_increment = 1

abbrev pub default_rapid_override : ℕ
default_rapid_override = 100

abbrev pub rapid_override_medium : ℕ
rapid_override_medium = 50

abbrev pub rapid_override_low : ℕ
rapid_override_low = 25

abbrev pub default_spindle_speed_override : ℕ
default_spindle_speed_override = 100

abbrev pub max_spindle_speed_override : ℕ
max_spindle_speed_override = 200

abbrev pub min_spindle_speed_override : ℕ
min_spindle_speed_override = 10

abbrev pub spindle_override_coarse_increment : ℕ
spindle_override_coarse_increment = 10

abbrev pub spindle_override_fine_increment : ℕ
spindle_override_fine_increment = 1

abbrev pub message_spindle_restore : ℕ
message_spindle_restore = 10

abbrev pub message_sleep_mode : ℕ
message_sleep_mode = 11
