-- ===== src/Protocol/Overrides.antt =====
-- The override section of protocol_exec_rt_system (protocol.c, lines 414 to 500). Override values
-- are uint8_t, so sums and differences wrap modulo 256.
pub mod Bounds
use zephyr_grbl.Prelude.{◌==◌, if◌then◌else◌, ℕ, ◌+◌, ◌-◌, ◌%◌, min, max, not, ◌&&◌, ◌||◌}
use zephyr_grbl.Flags.{Byte, ◌bor◌, is_nonzero, bit_istrue, bit_true, bit_false}
use zephyr_grbl.System.{
  Machine, cycle, hold, jog, state_in, is_idle, is_hold, call, set_step_control, state_bits,
  plan_cycle_reinitialize, plan_update_velocity_profile_parameters, spindle_set_state,
  coolant_set_state,
}
use zephyr_grbl.System.Exec.{
  system_clear_exec_motion_overrides, system_clear_exec_accessory_overrides,
}
use zephyr_grbl.System.Masks.{
  exec_feed_ovr_reset, exec_feed_ovr_coarse_plus, exec_feed_ovr_coarse_minus,
  exec_feed_ovr_fine_plus, exec_feed_ovr_fine_minus, exec_rapid_ovr_reset, exec_rapid_ovr_medium,
  exec_rapid_ovr_low, exec_spindle_ovr_reset, exec_spindle_ovr_coarse_plus,
  exec_spindle_ovr_coarse_minus, exec_spindle_ovr_fine_plus, exec_spindle_ovr_fine_minus,
  exec_spindle_ovr_stop, exec_coolant_flood_ovr_toggle, exec_coolant_mist_ovr_toggle,
  step_control_update_spindle_pwm, spindle_stop_ovr_enabled, spindle_stop_ovr_initiate,
  spindle_stop_ovr_restore, coolant_flood_enable, default_feed_override, max_feed_rate_override,
  min_feed_rate_override, feed_override_coarse_increment, feed_override_fine_increment,
  default_rapid_override, rapid_override_medium, rapid_override_low, default_spindle_speed_override,
  max_spindle_speed_override, min_spindle_speed_override, spindle_override_coarse_increment,
  spindle_override_fine_increment,
}

-- uint8_t x += n and x -= n
abbrev add_u8 : ℕ → ℕ → ℕ
add_u8 x n = (x + n) % 256

abbrev sub_u8 : ℕ → ℕ → ℕ
sub_u8 x n = (x + 256 - n) % 256

unfoldable pub new_f_override : Byte → ℕ → ℕ
new_f_override rt f =
    let f0 : ℕ = if bit_istrue rt exec_feed_ovr_reset then default_feed_override else f in
    let f1 : ℕ =
      if bit_istrue rt exec_feed_ovr_coarse_plus
      then add_u8 f0 feed_override_coarse_increment
      else f0 in
    let f2 : ℕ =
      if bit_istrue rt exec_feed_ovr_coarse_minus
      then sub_u8 f1 feed_override_coarse_increment
      else f1 in
    let f3 : ℕ =
      if bit_istrue rt exec_feed_ovr_fine_plus
      then add_u8 f2 feed_override_fine_increment
      else f2 in
    let f4 : ℕ =
      if bit_istrue rt exec_feed_ovr_fine_minus
      then sub_u8 f3 feed_override_fine_increment
      else f3 in
    max (min f4 max_feed_rate_override) min_feed_rate_override

unfoldable pub new_r_override : Byte → ℕ → ℕ
new_r_override rt r =
    let r0 : ℕ = if bit_istrue rt exec_rapid_ovr_reset then default_rapid_override else r in
    let r1 : ℕ = if bit_istrue rt exec_rapid_ovr_medium then rapid_override_medium else r0 in
    if bit_istrue rt exec_rapid_ovr_low then rapid_override_low else r1

unfoldable pub new_s_override : Byte → ℕ → ℕ
new_s_override rt s =
    let s0 : ℕ =
      if bit_istrue rt exec_spindle_ovr_reset then default_spindle_speed_override else s in
    let s1 : ℕ =
      if bit_istrue rt exec_spindle_ovr_coarse_plus
      then add_u8 s0 spindle_override_coarse_increment
      else s0 in
    let s2 : ℕ =
      if bit_istrue rt exec_spindle_ovr_coarse_minus
      then sub_u8 s1 spindle_override_coarse_increment
      else s1 in
    let s3 : ℕ =
      if bit_istrue rt exec_spindle_ovr_fine_plus
      then add_u8 s2 spindle_override_fine_increment
      else s2 in
    let s4 : ℕ =
      if bit_istrue rt exec_spindle_ovr_fine_minus
      then sub_u8 s3 spindle_override_fine_increment
      else s3 in
    max (min s4 max_spindle_speed_override) min_spindle_speed_override

-- protocol.c, lines 433 to 439
set_motion_overrides : ℕ → ℕ → Machine → Machine
set_motion_overrides f r m =
    if (f == m.sys.f_override) && (r == m.sys.r_override)
    then m
    else call plan_cycle_reinitialize (
        call plan_update_velocity_profile_parameters (record m {
          sys = record (m.sys) { f_override = f; r_override = r; report_ovr_counter = 0 };
        }))

unfoldable pub exec_motion_overrides : Machine → Machine
unfolding set_motion_overrides
exec_motion_overrides m =
    let rt : Byte = m.rt_exec_motion_override in
    if is_nonzero rt
    then set_motion_overrides (new_f_override rt m.sys.f_override)
        (new_r_override rt m.sys.r_override) (system_clear_exec_motion_overrides m)
    else m

-- protocol.c, lines 458 to 464. gc_state.spindle_speed, the other argument of spindle_set_state,
-- is the parser's and is not in `Machine`.
set_spindle_override : ℕ → Machine → Machine
set_spindle_override s m =
    if s == m.sys.spindle_speed_ovr
    then m
    else (let m' : Machine = record m { sys = record (m.sys) { spindle_speed_ovr = s } } in
        let m'' : Machine =
          if is_idle m'.sys.state
          then call (spindle_set_state m'.modal_spindle) m'
          else set_step_control (bit_true m'.sys.step_control step_control_update_spindle_pwm) m' in
        record m'' { sys = record (m''.sys) { report_ovr_counter = 0 } })

-- protocol.c, lines 466 to 473
stop_spindle : Byte → Machine → Machine
stop_spindle rt m =
    if bit_istrue rt exec_spindle_ovr_stop && is_hold m.sys.state
    then (let o : Byte = m.sys.spindle_stop_ovr in
        record m {
          sys = record (m.sys) {
            spindle_stop_ovr =
                if not (is_nonzero o)
                then spindle_stop_ovr_initiate
                else if bit_istrue o spindle_stop_ovr_enabled
                then bit_true o spindle_stop_ovr_restore
                else o;
          };
        })
    else m

-- protocol.c, lines 478 to 497 (ENABLE_M7 is not defined)
toggle_coolant : Byte → Machine → Machine
toggle_coolant rt m =
    if bit_istrue rt (exec_coolant_flood_ovr_toggle bor exec_coolant_mist_ovr_toggle)
      && (is_idle m.sys.state
          || state_in m.sys.state (state_bits cycle bor state_bits hold bor state_bits jog))
    then (let c : Byte =
          if bit_istrue m.modal_coolant coolant_flood_enable
          then bit_false m.modal_coolant coolant_flood_enable
          else bit_true m.modal_coolant coolant_flood_enable in
        record (call (coolant_set_state c) m) { modal_coolant = c })
    else m

unfoldable pub exec_accessory_overrides : Machine → Machine
unfolding set_spindle_override stop_spindle toggle_coolant
exec_accessory_overrides m =
    let rt : Byte = m.rt_exec_accessory_override in
    if is_nonzero rt
    then toggle_coolant rt (
        stop_spindle rt (
          set_spindle_override (new_s_override rt m.sys.spindle_speed_ovr)
            (system_clear_exec_accessory_overrides m)))
    else m
