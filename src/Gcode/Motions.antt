-- ===== src/Gcode/Motions.antt =====
-- STEP 4 of gc_execute_line (gcode.c, lines 1011 to 1078): the actions that are not modal, and the
-- motions.
use zephyr_grbl.Prelude.{◌==◌, if◌then◌else◌, ℕ, Bool, not, ◌||◌, Option}
use zephyr_grbl.Flags.{Byte, bit, ◌bor◌}
use zephyr_grbl.Gcode.Bits.{}
use zephyr_grbl.Gcode.Codes.{
  non_modal_set_coordinate_data, non_modal_go_home_0, non_modal_set_home_0, non_modal_go_home_1,
  non_modal_set_home_1, non_modal_set_coordinate_offset, non_modal_reset_coordinate_offset,
  motion_mode_seek, motion_mode_linear, motion_mode_cw_arc, motion_mode_probe_toward_no_error,
  motion_mode_probe_away, motion_mode_probe_away_no_error, motion_mode_none,
}
use zephyr_grbl.Gcode.Defs.{
  Arithmetic, Vec, each, GcodeBlock, axis_command_none, axis_command_motion_mode,
}
use zephyr_grbl.Gcode.Words.{}
use zephyr_grbl.Gcode.NonModal.{setting_index_g28, setting_index_g30}
use zephyr_grbl.Gcode.MotionModes.{is_arc}
use zephyr_grbl.Gcode.Checking.{Checked}
use zephyr_grbl.Gcode.Effects.{
  LineData, Run, UpdatePos, Surroundings, make_call, with_gs, with_modal, mc_line, mc_arc,
  mc_probe_cycle, settings_write_coord_data, system_flag_wco_change, to_target, to_system,
  unchanged,
}
use zephyr_grbl.Gcode.Execute.{}

module _ (ops : Arithmetic)
    (settings_read_coord_data : ℕ → Vec ops.floats.Float → Option (Vec ops.floats.Float)) where
  open ops use {floats, zero_value}

  abbrev Number : Type 0
  Number = floats.Float

  abbrev pub zero_vector : Vec Number
  zero_vector = each (λ _. zero_value)

  -- pl_data->condition |= flag
  abbrev with_flag : Byte → LineData Number → LineData Number
  with_flag flag pl = record pl { condition = pl.condition bor flag }

  -- Lines 1019 to 1027: G28 and G30.
  unfoldable pub execute_home : LineData Number → GcodeBlock Number → Run Number → Run Number
  execute_home pl b r =
      let rapid : LineData Number = with_flag (bit 0) pl in
      let r1 : Run Number =
        if b.axis_command == axis_command_none
        then r
        else make_call (mc_line b.values.xyz rapid) r in
      with_gs (λ gs. record gs { position = b.values.ijk })
        (make_call (mc_line b.values.ijk rapid) r1)

  -- Lines 1011 to 1042.
  unfoldable pub execute_non_modal : LineData Number → Checked Number → Run Number → Run Number
  execute_non_modal pl c r =
      let b : GcodeBlock Number = c.block in
      let n : ℕ = b.non_modal_command in
      let written : Run Number =
        make_call (settings_write_coord_data c.coord_select b.values.ijk) r in
      if n == non_modal_set_coordinate_data
      then (if r.gs.modal.coord_select == c.coord_select
          then make_call system_flag_wco_change
              (with_gs (λ gs. record gs { coord_system = b.values.ijk }) written)
          else written)
      else if n == non_modal_go_home_0 || n == non_modal_go_home_1
      then execute_home pl b r
      else if n == non_modal_set_home_0
      then make_call (settings_write_coord_data setting_index_g28 r.gs.position) r
      else if n == non_modal_set_home_1
      then make_call (settings_write_coord_data setting_index_g30 r.gs.position) r
      else if n == non_modal_set_coordinate_offset
      then make_call system_flag_wco_change
          (with_gs (λ gs. record gs { coord_offset = b.values.xyz }) r)
      else if n == non_modal_reset_coordinate_offset
      then make_call system_flag_wco_change
          (with_gs (λ gs. record gs { coord_offset = zero_vector }) r)
      else r

  -- Lines 1060 to 1077: a probing cycle, and the position after it.
  unfoldable pub execute_probe :
      Surroundings Number → LineData Number → GcodeBlock Number → Run Number → Run Number
  execute_probe io pl b r =
      let m : ℕ = b.modal.motion in
      let away : Bool = m == motion_mode_probe_away || m == motion_mode_probe_away_no_error in
      let no_error : Bool =
        m == motion_mode_probe_toward_no_error || m == motion_mode_probe_away_no_error in
      let result : UpdatePos × (Vec Number × Vec Number) = io.probe b.values.xyz in
      let probed : Run Number =
        make_call (mc_probe_cycle b.values.xyz (with_flag (bit 2) pl) away no_error) r in
      elim result.0 [
        | to_target ↦ with_gs (λ gs. record gs { position = result.1.0 }) probed
        | to_system ↦ with_gs (λ gs. record gs { position = result.1.1 }) probed
        | unchanged ↦ probed
      ]

  -- Lines 1048 to 1078.
  unfoldable pub execute_motion :
      Surroundings Number → LineData Number → Checked Number → Run Number → Run Number
  execute_motion io pl c r =
      let b : GcodeBlock Number = c.block in
      let m : ℕ = b.modal.motion in
      let to : Run Number → Run Number = with_gs (λ gs. record gs { position = b.values.xyz }) in
      let axes : Vec ℕ = record {
        x = c.plane.axis_0;
        y = c.plane.axis_1;
        z = c.plane.axis_linear;
      } in
      let r1 : Run Number = with_modal (λ md. record md { motion = m }) r in
      if m == motion_mode_none || not (b.axis_command == axis_command_motion_mode)
      then r1
      else if m == motion_mode_linear
      then to (make_call (mc_line b.values.xyz pl) r1)
      else if m == motion_mode_seek
      then to (make_call (mc_line b.values.xyz (with_flag (bit 0) pl)) r1)
      else if is_arc m
      then to (
          make_call
            (mc_arc b.values.xyz pl r1.gs.position b.values.ijk b.values.r axes
              (m == motion_mode_cw_arc))
            r1)
      else execute_probe io pl b r1
