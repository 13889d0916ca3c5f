-- ===== src/Gcode/Running.antt =====
-- gc_execute_line and gc_init (gcode.c): the program flow that ends STEP 4, and the four steps of a
-- line together.
use zephyr_grbl.Prelude.{
  ◌==◌, if◌then◌else◌, length, ℕ, Bool, false, Option, none, some, List, [], ◌∷◌,
}
use zephyr_grbl.Flags.{zero_byte}
use zephyr_grbl.Gcode.Bits.{no_bits}
use zephyr_grbl.Gcode.Codes.{
  non_modal_no_action, motion_mode_linear, plane_select_xy, distance_mode_absolute,
  program_flow_running, program_flow_paused, feed_rate_mode_units_per_min, spindle_disable,
  coolant_disable,
}
use zephyr_grbl.Gcode.Defs.{
  Arithmetic, Vec, Modal, Parser, GcodeBlock, GcodeStatus, Result, ◌>>=◌, axis_command_none,
  setting_read_fail, done, fail,
}
use zephyr_grbl.Gcode.Words.{Line, words_of, read_words}
use zephyr_grbl.Gcode.Checking.{Checked, check_block}
use zephyr_grbl.Gcode.Effects.{
  LineData, Run, Surroundings, make_call, with_gs, with_modal, system_flag_wco_change,
  protocol_buffer_synchronize, feed_hold, protocol_execute_realtime, restore_overrides,
  spindle_set_state, coolant_set_state, report_program_end,
}
use zephyr_grbl.Gcode.Execute.{
  execute_jog, laser_flags, set_speeds, set_spindle_and_coolant, set_modes,
}
use zephyr_grbl.Gcode.Motions.{zero_vector, execute_non_modal, execute_motion}

-- line[0] == '$'
abbrev pub is_jog_line : List ℕ → Bool
is_jog_line [] = false
is_jog_line (c ∷ _) = c == b'$'

-- The line from char_counter 3 on.
abbrev pub after_jog_prefix : List ℕ → List ℕ
after_jog_prefix (_ ∷ _ ∷ _ ∷ cs) = cs
after_jog_prefix _ = []

module _ (ops : Arithmetic)
    (settings_read_coord_data : ℕ → Vec ops.floats.Float → Option (Vec ops.floats.Float)) where
  open ops use {floats, zero_value}

  abbrev Number : Type 0
  Number = floats.Float

  -- Lines 1096 to 1103: the modes after M2 and M30.
  unfoldable pub reset_modes : Modal → Modal
  reset_modes m = record m {
    motion = motion_mode_linear;
    plane_select = plane_select_xy;
    distance = distance_mode_absolute;
    feed_rate = feed_rate_mode_units_per_min;
    coord_select = 0;
    spindle = spindle_disable;
    coolant = coolant_disable;
  }

  abbrev pub set_running : Run Number → Run Number
  set_running = with_modal (λ m. record m { program_flow = program_flow_running })

  -- Lines 1120 to 1123: the stops at the end of the program, in the order of the calls.
  unfoldable pub stop_all : Vec Number → Run Number → Run Number
  stop_all coord_system r = make_call (coolant_set_state coolant_disable) (
      make_call (spindle_set_state spindle_disable zero_value) (
        make_call system_flag_wco_change
          (with_gs (λ gs. record gs { coord_system = coord_system }) r)))

  -- Lines 1091 to 1127: the end of the program.
  unfoldable pub complete_program :
      Surroundings Number → Run Number → Option GcodeStatus × Run Number
  complete_program io r =
      let r1 : Run Number = make_call restore_overrides (with_modal reset_modes r) in
      if io.checking
      then (none, set_running (make_call report_program_end r1))
      else elim (settings_read_coord_data 0 r1.gs.coord_system) [
        | none ↦ (
          some setting_read_fail,
          with_gs (λ gs. record gs { coord_system = (zero_vector ops settings_read_coord_data) })
              r1,
        )
        | some v ↦ (none, set_running (make_call report_program_end (stop_all v r1)))
      ]

  -- Lines 1083 to 1128: [21. Program flow ].
  unfoldable pub execute_program_flow :
      Surroundings Number → GcodeBlock Number → Run Number → Option GcodeStatus × Run Number
  execute_program_flow io b r =
      let flow : ℕ = b.modal.program_flow in
      let r1 : Run Number =
        make_call protocol_buffer_synchronize
          (with_modal (λ m. record m { program_flow = flow }) r) in
      if flow == program_flow_running
      then (none, with_modal (λ m. record m { program_flow = flow }) r)
      else if flow == program_flow_paused
      then (
        none,
        set_running (
            if io.checking
            then r1
            else make_call protocol_execute_realtime (make_call feed_hold r1)),
      )
      else complete_program io r1

  -- Lines 868 to 1132: a block that is not a jog; the status, none for STATUS_OK.
  unfoldable pub execute_block :
      Surroundings Number → Checked Number → Run Number → Option GcodeStatus × Run Number
  execute_block io c r =
      let b : GcodeBlock Number = c.block in
      let fed : LineData Number × Run Number = set_speeds ops (laser_flags ops io r.gs b) b r in
      let ready : LineData Number × Run Number = set_spindle_and_coolant ops b fed.0 fed.1 in
      let placed : Run Number =
        execute_non_modal ops settings_read_coord_data ready.0 c (set_modes ops c ready.1) in
      execute_program_flow io b (execute_motion ops settings_read_coord_data io ready.0 c placed)

  -- Lines 75 to 106: STEP 1.
  unfoldable pub initial_block : Bool → Parser Number → GcodeBlock Number
  initial_block jog gs = record {
    non_modal_command = non_modal_no_action;
    modal =
        if jog
        then record (gs.modal) {
          motion = motion_mode_linear;
          feed_rate = feed_rate_mode_units_per_min;
        }
        else gs.modal;
    values = record {
      f = zero_value;
      ijk = (zero_vector ops settings_read_coord_data);
      l = 0;
      n = 0;
      p = zero_value;
      r = zero_value;
      s = zero_value;
      t = 0;
      xyz = (zero_vector ops settings_read_coord_data);
    };
    axis_command = axis_command_none;
    axis_words = zero_byte;
    ijk_words = zero_byte;
    command_words = no_bits;
    value_words = no_bits;
  }

  -- Steps 2 and 3 on the words of a line.
  unfoldable pub parse_block : Bool → Parser Number → Line ops → Result (Checked Number)
  parse_block jog gs line = do
    b ← read_words ops line (initial_block jog gs)
    check_block ops settings_read_coord_data jog gs b

  -- The four steps on the words of a line.
  unfoldable pub execute_words :
      Surroundings Number → Bool → Line ops → Run Number → Option GcodeStatus × Run Number
  execute_words io jog line r = elim (parse_block jog r.gs line) [
    | fail status ↦ (some status, r)
    | done c ↦ if jog then execute_jog ops io c r else execute_block io c r
  ]

  -- gc_execute_line
  unfoldable pub gc_execute_line :
      Surroundings Number → List ℕ → Run Number → Option GcodeStatus × Run Number
  gc_execute_line io line r =
      let text : List ℕ = if is_jog_line line then after_jog_prefix line else line in
      execute_words io (is_jog_line line) (words_of ops (length text) text) r

  abbrev pub zero_modal : Modal
  zero_modal = record {
    motion = 0;
    feed_rate = 0;
    units = 0;
    distance = 0;
    plane_select = 0;
    tool_length = 0;
    coord_select = 0;
    program_flow = 0;
    coolant = zero_byte;
    spindle = zero_byte;
  }

  -- gc_init: gc_state, and the status that is reported. A read that fails leaves the zeros.
  unfoldable pub gc_init : Parser Number × Option GcodeStatus
  gc_init =
      let cleared : Vec Number → Parser Number = λ v. record {
        modal = zero_modal;
        spindle_speed = zero_value;
        feed_rate = zero_value;
        tool = 0;
        line_number = 0;
        position = (zero_vector ops settings_read_coord_data);
        coord_system = v;
        coord_offset = (zero_vector ops settings_read_coord_data);
        tool_length_offset = zero_value;
      } in
      elim (settings_read_coord_data 0 (zero_vector ops settings_read_coord_data)) [
        | none ↦ (cleared (zero_vector ops settings_read_coord_data), some setting_read_fail)
        | some v ↦ (cleared v, none)
      ]
