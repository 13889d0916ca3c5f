-- ===== src/Gcode/Execute.antt =====
-- STEP 4 of gc_execute_line (gcode.c, lines 844 to 1006) for a checked block: the jog, and the
-- steps of the order of execution up to the motion.
use zephyr_grbl.Prelude.{
  ◌==◌, if◌then◌else◌, ℕ, Bool, false, not, ◌&&◌, ◌||◌, Option, none, some, [], ◌∷◌,
}
use zephyr_grbl.Flags.{zero_byte, bit, ◌bor◌, is_nonzero, value}
use zephyr_grbl.Gcode.Bits.{any_bit}
use zephyr_grbl.Gcode.Codes.{
  modal_group_g0, modal_group_g3, modal_group_g6, non_modal_no_action, non_modal_dwell,
  non_modal_absolute_override, motion_mode_linear, tool_length_offset_cancel, spindle_enable_cw,
}
use zephyr_grbl.Gcode.Defs.{
  Arithmetic, Vec, Parser, GcodeBlock, GcodeStatus, axis_command_motion_mode,
  axis_command_tool_length_offset, travel_exceeded, invalid_jog_command,
}
use zephyr_grbl.Gcode.MotionModes.{is_arc, drop_words}
use zephyr_grbl.Gcode.Checking.{Checked}
use zephyr_grbl.Gcode.Effects.{
  LineData, Run, Surroundings, make_call, with_gs, with_modal, spindle_sync, coolant_sync, mc_dwell,
  mc_line, system_flag_wco_change, start_jog,
}

-- The flags of gc_parser_flags that the laser mode sets.
pub record LaserFlags : Type 0 where
  pub force_sync : Bool
  pub disable : Bool

-- MOTION_MODE_LINEAR, MOTION_MODE_CW_ARC or MOTION_MODE_CCW_ARC
abbrev pub is_cutting : ℕ → Bool
is_cutting motion = motion == motion_mode_linear || is_arc motion

module _ (ops : Arithmetic) where
  open ops use {floats, equal, less, zero_value}

  abbrev Number : Type 0
  Number = floats.Float

  -- system_check_travel_limits (system.c, lines 339 to 357)
  unfoldable pub system_check_travel_limits : Vec Number → Vec Number → Bool
  system_check_travel_limits max_travel target =
      let outside : Number → Number → Bool = λ limit t. less zero_value t || less t limit in
      outside max_travel.x target.x
      || (outside max_travel.y target.y || outside max_travel.z target.z)

  -- jog_execute (jog.c): the status, and the calls.
  unfoldable pub jog_execute :
      Surroundings Number
      → LineData Number
      → GcodeBlock Number
      → Run Number
      → Option GcodeStatus × Run Number
  jog_execute io pl b r =
      let pl_data : LineData Number = record pl {
        feed_rate = b.values.f;
        condition = pl.condition bor bit 2;
      } in
      let moved : Run Number = make_call (mc_line b.values.xyz pl_data) r in
      if io.soft_limits && system_check_travel_limits io.max_travel b.values.xyz
      then (some travel_exceeded, r)
      else (none, if io.idle && io.has_planned then make_call start_jog moved else moved)

  -- Lines 856 and 857: the commands that a jog may have.
  unfoldable pub is_jog_command : GcodeBlock Number → Bool
  is_jog_command b =
      not (
        any_bit
          (drop_words (modal_group_g3 ∷ modal_group_g6 ∷ modal_group_g0 ∷ []) b.command_words))
      && (b.non_modal_command == non_modal_absolute_override
          || b.non_modal_command == non_modal_no_action)

  -- Lines 853 to 866.
  unfoldable pub execute_jog :
      Surroundings Number → Checked Number → Run Number → Option GcodeStatus × Run Number
  execute_jog io c r =
      let pl : LineData Number = record {
        feed_rate = zero_value;
        spindle_speed = r.gs.spindle_speed;
        condition = r.gs.modal.spindle bor r.gs.modal.coolant;
      } in
      let jogged : Option GcodeStatus × Run Number = jog_execute io pl c.block r in
      if not (is_jog_command c.block) then (some invalid_jog_command, r) else elim jogged.0 [
        | none ↦ (none, with_gs (λ gs. record gs { position = c.block.values.xyz }) jogged.1)
        | some status ↦ (some status, jogged.1)
      ]

  -- Lines 868 to 897.
  unfoldable pub laser_flags : Surroundings Number → Parser Number → GcodeBlock Number → LaserFlags
  laser_flags io gs b =
      let disable : Bool = not (is_cutting b.modal.motion) in
      let is_motion : Bool =
        is_nonzero b.axis_words && b.axis_command == axis_command_motion_mode in
      if not io.laser_mode then record { force_sync = false; disable = false } else record {
        force_sync =
            not is_motion
            && (value gs.modal.spindle == value spindle_enable_cw
                && (if is_cutting gs.modal.motion then disable else not disable));
        disable = disable;
      }

  -- Lines 899 to 937: line number, feed and spindle speed; the planner data of the block.
  unfoldable pub set_speeds :
      LaserFlags → GcodeBlock Number → Run Number → LineData Number × Run Number
  set_speeds laser b r =
      let sync : Bool =
        (not (equal r.gs.spindle_speed b.values.s) || laser.force_sync)
        && is_nonzero r.gs.modal.spindle in
      let speed : Number =
        if not (equal r.gs.spindle_speed b.values.s) || laser.force_sync
        then b.values.s
        else r.gs.spindle_speed in
      let synced : Run Number =
        if sync then make_call (spindle_sync r.gs.modal.spindle zero_value) r else r in
      (
        record {
          feed_rate = b.values.f;
          spindle_speed = if laser.disable then zero_value else speed;
          condition = if b.modal.feed_rate == 0 then zero_byte else bit 3;
        },
        with_gs
            (λ gs. record gs {
              line_number = b.values.n;
              modal = record (gs.modal) { feed_rate = b.modal.feed_rate };
              feed_rate = b.values.f;
              spindle_speed = speed;
              tool = b.values.t;
            })
            synced,
      )

  -- Lines 941 to 958: spindle and coolant.
  unfoldable pub set_spindle_and_coolant :
      GcodeBlock Number → LineData Number → Run Number → LineData Number × Run Number
  set_spindle_and_coolant b pl r =
      let r1 : Run Number =
        if value r.gs.modal.spindle == value b.modal.spindle
        then r
        else make_call (spindle_sync b.modal.spindle pl.spindle_speed) r in
      let r2 : Run Number =
        if value r.gs.modal.coolant == value b.modal.coolant
        then r1
        else make_call (coolant_sync b.modal.coolant) r1 in
      (
        record pl { condition = pl.condition bor b.modal.spindle bor b.modal.coolant },
        with_modal (λ m. record m { spindle = b.modal.spindle; coolant = b.modal.coolant }) r2,
      )

  -- Lines 984 to 993: G43.1 and G49. The 0 that G49 stores in the block is not read afterwards.
  unfoldable pub set_tool_length : GcodeBlock Number → Run Number → Run Number
  set_tool_length b r =
      let length : Number =
        if b.modal.tool_length == tool_length_offset_cancel then zero_value else b.values.xyz.z in
      let r1 : Run Number = with_modal (λ m. record m { tool_length = b.modal.tool_length }) r in
      if not (b.axis_command == axis_command_tool_length_offset)
      then r
      else if equal r.gs.tool_length_offset length
      then r1
      else make_call system_flag_wco_change
          (with_gs (λ gs. record gs { tool_length_offset = length }) r1)

  -- Lines 996 to 1000.
  unfoldable pub set_coord_system : Checked Number → Run Number → Run Number
  set_coord_system c r =
      if r.gs.modal.coord_select == c.block.modal.coord_select
      then r
      else make_call system_flag_wco_change (
          with_gs
            (λ gs. record gs {
              modal = record (gs.modal) { coord_select = c.block.modal.coord_select };
              coord_system = c.coord_system;
            })
            r)

  -- Lines 968 to 1006: dwell, plane, units, tool length, coordinate system and distance mode.
  unfoldable pub set_modes : Checked Number → Run Number → Run Number
  set_modes c r =
      let b : GcodeBlock Number = c.block in
      let r1 : Run Number =
        if b.non_modal_command == non_modal_dwell then make_call (mc_dwell b.values.p) r else r in
      let r2 : Run Number =
        with_modal (λ m. record m { plane_select = b.modal.plane_select; units = b.modal.units })
          r1 in
      with_modal (λ m. record m { distance = b.modal.distance })
        (set_coord_system c (set_tool_length b r2))
