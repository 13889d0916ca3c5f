-- ===== src/System/Defs.antt =====
-- The state: `State` for sys.state, `System` for system_t, `Machine` for the globals.
use zephyr_grbl.Prelude.{ℕ, Bool, true, false, List, ◌∷◌}
use zephyr_grbl.Flags.{Byte, bit, zero_byte, is_nonzero, ◌band◌}
use zephyr_grbl.Planner.{Indices}

-- sys.state: only these values are ever assigned to it.
pub data State : Type 0 where
  idle alarm check_mode homing cycle hold jog safety_door sleep : State

-- The bit map of a state, STATE_IDLE to STATE_SLEEP.
abbrev pub state_bits : State → Byte
state_bits idle = zero_byte
state_bits alarm = bit 0
state_bits check_mode = bit 1
state_bits homing = bit 2
state_bits cycle = bit 3
state_bits hold = bit 4
state_bits jog = bit 5
state_bits safety_door = bit 6
state_bits sleep = bit 7

-- sys.state & mask
abbrev pub state_in : State → Byte → Bool
state_in s m = is_nonzero (state_bits s band m)

-- sys.state == s
abbrev pub is_idle : State → Bool
is_idle idle = true
is_idle _ = false

abbrev pub is_alarm : State → Bool
is_alarm alarm = true
is_alarm _ = false

abbrev pub is_homing : State → Bool
is_homing homing = true
is_homing _ = false

abbrev pub is_hold : State → Bool
is_hold hold = true
is_hold _ = false

abbrev pub is_jog : State → Bool
is_jog jog = true
is_jog _ = false

abbrev pub is_safety_door : State → Bool
is_safety_door safety_door = true
is_safety_door _ = false

abbrev pub is_sleep : State → Bool
is_sleep sleep = true
is_sleep _ = false

abbrev pub is_check_mode : State → Bool
is_check_mode check_mode = true
is_check_mode _ = false

-- system_t, with the options of config.h: no dual axis, no parking override, no variable spindle
pub record System : Type 0 where
  pub state : State
  pub abort : Bool
  pub suspend : Byte
  pub soft_limit : Bool
  pub step_control : Byte
  pub probe_succeeded : Bool
  pub homing_axis_lock : ℕ
  pub f_override : ℕ
  pub r_override : ℕ
  pub spindle_speed_ovr : ℕ
  pub spindle_stop_ovr : Byte
  pub report_ovr_counter : ℕ
  pub report_wco_counter : ℕ

-- A call of a function whose effect is outside `Machine`.
pub data Call : Type 0 where
  report_alarm_message report_feedback_message report_status_message : ℕ → Call
  report_realtime_status : Call
  st_update_plan_block_parameters st_prep_buffer st_wake_up st_reset st_go_idle : Call
  plan_cycle_reinitialize plan_update_velocity_profile_parameters : Call
  plan_sync_position gc_sync_position : Call
  spindle_stop coolant_stop : Call
  spindle_set_state coolant_set_state : Byte → Call

-- The globals of main.c, the planner's indices, gc_state.modal.spindle and .coolant, and the calls
-- made so far, latest first.
pub record Machine : Type 0 where
  pub sys : System
  pub rt_exec_state : Byte
  pub rt_exec_alarm : ℕ
  pub rt_exec_motion_override : Byte
  pub rt_exec_accessory_override : Byte
  pub planner : Indices
  pub modal_spindle : Byte
  pub modal_coolant : Byte
  pub calls : List Call

abbrev pub call : Call → Machine → Machine
call c m = record m { calls = c ∷ m.calls }

abbrev pub set_state : State → Machine → Machine
set_state s m = record m { sys = record (m.sys) { state = s } }

abbrev pub set_suspend : Byte → Machine → Machine
set_suspend b m = record m { sys = record (m.sys) { suspend = b } }

abbrev pub set_step_control : Byte → Machine → Machine
set_step_control b m = record m { sys = record (m.sys) { step_control = b } }
