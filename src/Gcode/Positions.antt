-- ===== src/Gcode/Positions.antt =====
-- The position of the parser after a block (gcode.c, lines 899 to 1128): through the modes, the
-- actions that are not modal, the motion and the program flow.
use zephyr_grbl.Prelude.{
  ◌==◌, if◌then◌else◌, Bool-cases, ℕ, ◌≡◌, sym, ap, ◌∙◌, inl, inr, Bool, true, false, not, ◌&&◌,
  ◌||◌, Option, arith,
}
use zephyr_grbl.Gcode.Codes.{
  non_modal_go_home_0, non_modal_go_home_1, motion_mode_seek, motion_mode_linear, motion_mode_none,
}
use zephyr_grbl.Gcode.Defs.{Arithmetic, Vec, GcodeBlock, axis_command_motion_mode}
use zephyr_grbl.Gcode.MotionModes.{is_arc}
use zephyr_grbl.Gcode.Checking.{Checked}
use zephyr_grbl.Gcode.Effects.{LineData, Run, Surroundings}
use zephyr_grbl.Gcode.Execute.{
  LaserFlags, laser_flags, set_speeds, set_spindle_and_coolant, set_tool_length, set_coord_system,
  set_modes,
}
use zephyr_grbl.Gcode.Motions.{execute_home, execute_non_modal, execute_motion}
use zephyr_grbl.Gcode.Running.{stop_all, complete_program, execute_program_flow, execute_block}
use zephyr_grbl.Gcode.Modes.{moved_by}

module _ (ops : Arithmetic) where
  open ops use {floats}

  set_speeds-position :
      (laser : LaserFlags) (b : GcodeBlock floats.Float) (r : Run floats.Float)
      → (set_speeds ops laser b r).1.gs.position ≡ r.gs.position
  unfolding set_speeds
  set_speeds-position laser b r = ground arith

  set_spindle_and_coolant-position :
      (b : GcodeBlock floats.Float) (pl : LineData floats.Float) (r : Run floats.Float)
      → (set_spindle_and_coolant ops b pl r).1.gs.position ≡ r.gs.position
  unfolding set_spindle_and_coolant
  set_spindle_and_coolant-position b pl r = ground arith

  set_modes-position :
      (c : Checked floats.Float) (r : Run floats.Float)
      → (set_modes ops c r).gs.position ≡ r.gs.position
  unfolding set_modes set_coord_system set_tool_length
  set_modes-position c r = ground arith

  -- G28 and G30.
  abbrev pub goes_home : GcodeBlock floats.Float → Bool
  goes_home b =
      b.non_modal_command == non_modal_go_home_0 || b.non_modal_command == non_modal_go_home_1

  -- A motion other than a probing cycle, with axis words or a motion command.
  abbrev pub moves : GcodeBlock floats.Float → Bool
  moves b =
      b.axis_command == axis_command_motion_mode
      && (b.modal.motion == motion_mode_seek
          || (b.modal.motion == motion_mode_linear || is_arc b.modal.motion))

  -- A probing cycle: the motion mode is none of the others.
  abbrev pub probes : GcodeBlock floats.Float → Bool
  probes b =
      b.axis_command == axis_command_motion_mode
      && (not (b.modal.motion == motion_mode_none)
          && not (
              b.modal.motion == motion_mode_seek
              || (b.modal.motion == motion_mode_linear || is_arc b.modal.motion)))

  -- Where a block that does not probe leaves the parser.
  unfoldable pub position_after : GcodeBlock floats.Float → Vec floats.Float → Vec floats.Float
  position_after b old = if moves b then b.values.xyz else if goes_home b then b.values.ijk else old

module _ (ops : Arithmetic)
    (settings_read_coord_data : ℕ → Vec ops.floats.Float → Option (Vec ops.floats.Float)) where
  open ops use {floats}

  execute_non_modal-position :
      (pl : LineData floats.Float) (c : Checked floats.Float) (r : Run floats.Float)
      → (execute_non_modal ops settings_read_coord_data pl c r).gs.position
        ≡ (if goes_home ops c.block then c.block.values.ijk else r.gs.position)
  unfolding execute_non_modal execute_home
  execute_non_modal-position pl c r = ground arith

  execute_motion-position :
      (io : Surroundings floats.Float) (pl : LineData floats.Float) (c : Checked floats.Float)
      (r : Run floats.Float)
      → moves ops c.block ≡ true
      → (execute_motion ops settings_read_coord_data io pl c r).gs.position ≡ c.block.values.xyz
  unfolding execute_motion
  execute_motion-position io pl c r h = ground arith

  execute_motion-still :
      (io : Surroundings floats.Float) (pl : LineData floats.Float) (c : Checked floats.Float)
      (r : Run floats.Float)
      → moves ops c.block ≡ false
      → probes ops c.block ≡ false
      → (execute_motion ops settings_read_coord_data io pl c r).gs.position ≡ r.gs.position
  unfolding execute_motion
  execute_motion-still io pl c r h i = ground arith

  execute_program_flow-position :
      (io : Surroundings floats.Float) (b : GcodeBlock floats.Float) (r : Run floats.Float)
      → (execute_program_flow ops settings_read_coord_data io b r).1.gs.position ≡ r.gs.position
  unfolding execute_program_flow complete_program stop_all
  execute_program_flow-position io b r = ground arith

  -- The position before the motion.
  placed-position :
      (pl : LineData floats.Float) (laser : LaserFlags) (c : Checked floats.Float)
      (r : Run floats.Float)
      → (execute_non_modal ops settings_read_coord_data pl c (
          set_modes ops c
            (set_spindle_and_coolant ops c.block
              (set_speeds ops laser c.block r).0
              (set_speeds ops laser c.block r).1).1)).gs.position
        ≡ (if goes_home ops c.block then c.block.values.ijk else r.gs.position)
  placed-position pl laser c r =
      let fed = set_speeds ops laser c.block r in
      let ready = set_spindle_and_coolant ops c.block fed.0 fed.1 in
      execute_non_modal-position pl c (set_modes ops c ready.1)
      ∙ ap (λ p. if goes_home ops c.block then c.block.values.ijk else p)
          (set_modes-position ops c ready.1
            ∙ (set_spindle_and_coolant-position ops c.block fed.0 fed.1
                ∙ set_speeds-position ops laser c.block r))

  -- The position of the parser after a block that is not a jog and does not probe, whatever it
  -- returns: the target of its motion, else, for G28 and G30, the values ijk of the block, else the
  -- one before.
  pub execute_block-position :
      (io : Surroundings floats.Float) (c : Checked floats.Float) (r : Run floats.Float)
      → probes ops c.block ≡ false
      → (execute_block ops settings_read_coord_data io c r).1.gs.position
        ≡ position_after ops c.block r.gs.position
  unfolding execute_block position_after
  execute_block-position io c r still =
      let b = c.block in
      let laser = laser_flags ops io r.gs b in
      let fed = set_speeds ops laser b r in
      let ready = set_spindle_and_coolant ops b fed.0 fed.1 in
      let placed =
        execute_non_modal ops settings_read_coord_data ready.0 c (set_modes ops c ready.1) in
      let flow =
        execute_program_flow-position io b (moved_by ops settings_read_coord_data io c r) in
      elim (Bool-cases (moves ops b)) [
        | inl e ↦
            flow
            ∙ (execute_motion-position io ready.0 c placed e
                ∙ sym (
                    ap
                      (λ t.
                        if t
                        then b.values.xyz
                        else if goes_home ops b
                        then b.values.ijk
                        else r.gs.position)
                      e))
        | inr e ↦
            flow
            ∙ (execute_motion-still io ready.0 c placed e still
                ∙ (placed-position ready.0 laser c r
                    ∙ sym (
                        ap
                          (λ t.
                            if t
                            then b.values.xyz
                            else if goes_home ops b
                            then b.values.ijk
                            else r.gs.position)
                          e)))
      ]
