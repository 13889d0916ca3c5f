-- ===== src/Gcode/Modes.antt =====
-- The modes of the parser after a block (gcode.c, lines 899 to 1128): STEP 4 copies them one by one,
-- between the calls of the order of execution.
use zephyr_grbl.Prelude.{◌==◌, if◌then◌else◌, ℕ, ◌≡◌, ap, ◌∙◌, Option, none, arith}
use zephyr_grbl.Gcode.Codes.{
  motion_mode_linear, plane_select_xy, distance_mode_absolute, program_flow_running,
  program_flow_paused, feed_rate_mode_units_per_min, spindle_disable, coolant_disable,
}
use zephyr_grbl.Gcode.Defs.{Arithmetic, Vec, Modal, GcodeBlock, axis_command_tool_length_offset}
use zephyr_grbl.Gcode.Checking.{Checked}
use zephyr_grbl.Gcode.Effects.{LineData, Run, Surroundings}
use zephyr_grbl.Gcode.Execute.{
  LaserFlags, laser_flags, set_speeds, set_spindle_and_coolant, set_tool_length, set_coord_system,
  set_modes,
}
use zephyr_grbl.Gcode.Motions.{execute_home, execute_non_modal, execute_probe, execute_motion}
use zephyr_grbl.Gcode.Running.{
  reset_modes, stop_all, complete_program, execute_program_flow, execute_block,
}

module _ (ops : Arithmetic) where
  open ops use {floats}

  set_speeds-modal :
      (laser : LaserFlags) (b : GcodeBlock floats.Float) (r : Run floats.Float)
      → (set_speeds ops laser b r).1.gs.modal
        ≡ record (r.gs.modal) { feed_rate = b.modal.feed_rate }
  unfolding set_speeds
  set_speeds-modal laser b r = ground arith

  set_spindle_and_coolant-modal :
      (b : GcodeBlock floats.Float) (pl : LineData floats.Float) (r : Run floats.Float)
      → (set_spindle_and_coolant ops b pl r).1.gs.modal
        ≡ record (r.gs.modal) { spindle = b.modal.spindle; coolant = b.modal.coolant }
  unfolding set_spindle_and_coolant
  set_spindle_and_coolant-modal b pl r = ground arith

  -- The tool length mode changes by G43.1 and G49 only.
  abbrev pub tool_length_of : GcodeBlock floats.Float → Modal → ℕ
  tool_length_of b m =
      if b.axis_command == axis_command_tool_length_offset
      then b.modal.tool_length
      else m.tool_length

  set_modes-modal :
      (c : Checked floats.Float) (r : Run floats.Float)
      → (set_modes ops c r).gs.modal ≡ record (r.gs.modal) {
        plane_select = c.block.modal.plane_select;
        units = c.block.modal.units;
        tool_length = tool_length_of c.block r.gs.modal;
        coord_select = c.block.modal.coord_select;
        distance = c.block.modal.distance;
      }
  unfolding set_modes set_coord_system set_tool_length
  set_modes-modal c r = ground arith

module _ (ops : Arithmetic)
    (settings_read_coord_data : ℕ → Vec ops.floats.Float → Option (Vec ops.floats.Float)) where
  open ops use {floats}

  execute_non_modal-modal :
      (pl : LineData floats.Float) (c : Checked floats.Float) (r : Run floats.Float)
      → (execute_non_modal ops settings_read_coord_data pl c r).gs.modal ≡ r.gs.modal
  unfolding execute_non_modal execute_home
  execute_non_modal-modal pl c r = ground arith

  execute_motion-modal :
      (io : Surroundings floats.Float) (pl : LineData floats.Float) (c : Checked floats.Float)
      (r : Run floats.Float)
      → (execute_motion ops settings_read_coord_data io pl c r).gs.modal
        ≡ record (r.gs.modal) { motion = c.block.modal.motion }
  unfolding execute_motion execute_probe
  execute_motion-modal io pl c r = ground arith

  -- What [21. Program flow ] leaves of the modes.
  unfoldable pub modes_after : Modal → Modal
  modes_after m =
      if m.program_flow == program_flow_running
      then m
      else if m.program_flow == program_flow_paused
      then record m { program_flow = program_flow_running }
      else record m {
        motion = motion_mode_linear;
        plane_select = plane_select_xy;
        distance = distance_mode_absolute;
        feed_rate = feed_rate_mode_units_per_min;
        coord_select = 0;
        spindle = spindle_disable;
        coolant = coolant_disable;
        program_flow = program_flow_running;
      }

  execute_program_flow-modal :
      (io : Surroundings floats.Float) (b : GcodeBlock floats.Float) (r r' : Run floats.Float)
      → execute_program_flow ops settings_read_coord_data io b r ≡ (none, r')
      → r'.gs.modal ≡ modes_after (record (r.gs.modal) { program_flow = b.modal.program_flow })
  unfolding execute_program_flow complete_program reset_modes stop_all modes_after
  execute_program_flow-modal io b r r' h = ground arith

  -- A block up to its motion: STEP 4 without the program flow.
  abbrev pub moved_by :
      Surroundings floats.Float → Checked floats.Float → Run floats.Float → Run floats.Float
  moved_by io c r =
      let fed = set_speeds ops (laser_flags ops io r.gs c.block) c.block r in
      let ready = set_spindle_and_coolant ops c.block fed.0 fed.1 in
      execute_motion ops settings_read_coord_data io ready.0 c
        (execute_non_modal ops settings_read_coord_data ready.0 c (set_modes ops c ready.1))

  -- Up to the program flow, each mode is copied.
  pub moved_by-modal :
      (io : Surroundings floats.Float) (c : Checked floats.Float) (r : Run floats.Float)
      → (moved_by io c r).gs.modal ≡ record (c.block.modal) {
        tool_length = tool_length_of ops c.block r.gs.modal;
        program_flow = r.gs.modal.program_flow;
      }
  moved_by-modal io c r =
      let b = c.block.modal in
      let laser = laser_flags ops io r.gs c.block in
      let fed = set_speeds ops laser c.block r in
      let ready = set_spindle_and_coolant ops c.block fed.0 fed.1 in
      let modes = set_modes ops c ready.1 in
      let placed = execute_non_modal ops settings_read_coord_data ready.0 c modes in
      let spun =
        set_spindle_and_coolant-modal ops c.block fed.0 fed.1
        ∙ ap (λ (m : Modal). record m { coolant = b.coolant; spindle = b.spindle })
            (set_speeds-modal ops laser c.block r) in
      let set =
        set_modes-modal ops c ready.1
        ∙ ap
            (λ (m : Modal). record m {
              plane_select = b.plane_select;
              units = b.units;
              tool_length = tool_length_of ops c.block m;
              coord_select = b.coord_select;
              distance = b.distance;
            })
            spun in
      execute_motion-modal io ready.0 c placed
      ∙ ap (λ (m : Modal). record m { motion = b.motion })
          (execute_non_modal-modal ready.0 c modes ∙ set)

  -- The modes after a block that is not a jog and returns STATUS_OK: those of the block, with the
  -- tool length mode of the parser unless the block sets it, and after M0, M2 and M30 as in
  -- modes_after.
  pub execute_block-modal :
      (io : Surroundings floats.Float) (c : Checked floats.Float) (r r' : Run floats.Float)
      → execute_block ops settings_read_coord_data io c r ≡ (none, r')
      → r'.gs.modal
        ≡ modes_after
            (record (c.block.modal) { tool_length = tool_length_of ops c.block r.gs.modal })
  unfolding execute_block
  execute_block-modal io c r r' h =
      execute_program_flow-modal io c.block (moved_by io c r) r' h
      ∙ ap (λ (m : Modal). modes_after (record m { program_flow = c.block.modal.program_flow }))
          (moved_by-modal io c r)
