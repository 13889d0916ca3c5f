-- ===== src/Tests/Machines.antt =====
-- The machine after power-up, and the ring with one block in it.
use zephyr_grbl.Prelude.{false, []}
use zephyr_grbl.Flags.{zero_byte}
use zephyr_grbl.Planner.{Indices}
use zephyr_grbl.System.{System, Machine, idle}

abbrev pub one_block : Indices
one_block = record { tail = 0; head = 1; next_head = 2; planned = 0 }

abbrev pub ready : System
ready = record {
  state = idle;
  abort = false;
  suspend = zero_byte;
  soft_limit = false;
  step_control = zero_byte;
  probe_succeeded = false;
  homing_axis_lock = 0;
  f_override = 100;
  r_override = 100;
  spindle_speed_ovr = 100;
  spindle_stop_ovr = zero_byte;
  report_ovr_counter = 0;
  report_wco_counter = 0;
}

abbrev pub ready_machine : Machine
ready_machine = record {
  sys = ready;
  rt_exec_state = zero_byte;
  rt_exec_alarm = 0;
  rt_exec_motion_override = zero_byte;
  rt_exec_accessory_override = zero_byte;
  planner = one_block;
  modal_spindle = zero_byte;
  modal_coolant = zero_byte;
  calls = [];
}
