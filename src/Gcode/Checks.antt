-- ===== src/Gcode/Checks.antt =====
-- STEP 3 of gc_execute_line (gcode.c, lines 365 to 497), the modes and the feed rate: the checks
-- of a block, and the conversion of its values. `gs` is gc_state; the parser state is only read.
use zephyr_grbl.Prelude.{ltb, ◌==◌, if◌then◌else◌, ℕ, Bool, not, ◌&&◌, ◌||◌}
use zephyr_grbl.Flags.{Byte, bit, ◌bor◌, is_nonzero, bit_false}
use zephyr_grbl.Gcode.Bits.{clear_bit}
use zephyr_grbl.Gcode.Codes.{
  non_modal_dwell, motion_mode_seek, motion_mode_none, plane_select_xy, plane_select_zx,
  feed_rate_mode_units_per_min, feed_rate_mode_inverse_time, units_mode_inches,
  tool_length_offset_enable_dynamic, word_f, word_n, word_p, word_s, max_line_number,
}
use zephyr_grbl.Gcode.Defs.{
  Arithmetic, at, each, Values, Parser, GcodeBlock, Result, require, axis_command_none,
  axis_command_motion_mode, axis_command_tool_length_offset, undefined_feed_rate,
  invalid_line_number, value_word_missing, g43_dynamic_axis_error, done, fail,
}

-- axis_0, axis_1 and axis_linear
pub record Plane : Type 0 where
  pub axis_0 : ℕ
  pub axis_1 : ℕ
  pub axis_linear : ℕ

-- Lines 455 to 470.
unfoldable pub select_plane : ℕ → Plane
select_plane p =
    if p == plane_select_xy
    then record { axis_0 = 0; axis_1 = 1; axis_linear = 2 }
    else if p == plane_select_zx
    then record { axis_0 = 2; axis_1 = 0; axis_linear = 1 }
    else record { axis_0 = 1; axis_1 = 2; axis_linear = 0 }

abbrev pub tool_length_offset_axis : ℕ
tool_length_offset_axis = 2

-- axis_words & bit(idx)
abbrev pub has_axis : Byte → ℕ → Bool
has_axis words idx = if idx == 0 then words.b0 else if idx == 1 then words.b1 else words.b2

module _ {F : Type 0} where
  abbrev pub with_values : (Values F → Values F) → GcodeBlock F → GcodeBlock F
  with_values f b = record b { values = f b.values }

  abbrev pub with_axis_command : ℕ → GcodeBlock F → GcodeBlock F
  with_axis_command c b = record b { axis_command = c }

  abbrev pub drop_word : ℕ → GcodeBlock F → GcodeBlock F
  drop_word w b = record b { value_words = clear_bit w b.value_words }

  -- Lines 369 to 371.
  unfoldable pub imply_motion : GcodeBlock F → GcodeBlock F
  imply_motion b =
      if is_nonzero b.axis_words && b.axis_command == axis_command_none
      then with_axis_command axis_command_motion_mode b
      else b

  -- Lines 374 to 377.
  unfoldable pub check_line_number : GcodeBlock F → Result (Unit {0})
  check_line_number b =
      require (not (b.value_words word_n && ltb max_line_number b.values.n)) invalid_line_number

  -- Lines 449 to 452.
  unfoldable pub check_dwell : GcodeBlock F → Result (GcodeBlock F)
  check_dwell b =
      if b.non_modal_command == non_modal_dwell
      then (if b.value_words word_p then done (drop_word word_p b) else fail value_word_missing)
      else done b

  -- Lines 493 to 497: axis_words ^ (1<<TOOL_LENGTH_OFFSET_AXIS).
  unfoldable pub check_tool_length : GcodeBlock F → Result (Unit {0})
  check_tool_length b =
      require
        (not (
            b.axis_command == axis_command_tool_length_offset
            && b.modal.tool_length == tool_length_offset_enable_dynamic)
          || (not b.axis_words.b0
              && (not b.axis_words.b1
                  && (b.axis_words.b2
                      && not (is_nonzero (bit_false b.axis_words (bit 0 bor bit 1 bor bit 2)))))))
        g43_dynamic_axis_error

module _ (ops : Arithmetic) where
  open ops use {floats, multiply, mm_per_inch}

  abbrev Number : Type 0
  Number = floats.Float

  -- Lines 387 to 425: [2. Set feed rate mode ] and [3. Set feed rate ].
  unfoldable pub set_feed_rate :
      Bool → Parser Number → GcodeBlock Number → Result (GcodeBlock Number)
  set_feed_rate jog gs b =
      let to_mm : GcodeBlock Number =
        if b.modal.units == units_mode_inches
        then with_values (λ v. record v { f = multiply v.f mm_per_inch }) b
        else b in
      if jog
      then (if b.value_words word_f then done to_mm else fail undefined_feed_rate)
      else if b.modal.feed_rate == feed_rate_mode_inverse_time
      then (if b.axis_command == axis_command_motion_mode
            && (not (b.modal.motion == motion_mode_none || b.modal.motion == motion_mode_seek)
                && not (b.value_words word_f))
          then fail undefined_feed_rate
          else done b)
      else if gs.modal.feed_rate == feed_rate_mode_units_per_min
      then done (
          if b.value_words word_f
          then to_mm
          else with_values (λ v. record v { f = gs.feed_rate }) b)
      else done b

  -- Line 429.
  unfoldable pub set_spindle_speed : Parser Number → GcodeBlock Number → GcodeBlock Number
  set_spindle_speed gs b =
      if b.value_words word_s then b else with_values (λ v. record v { s = gs.spindle_speed }) b

  -- Lines 475 to 481.
  unfoldable pub convert_units : GcodeBlock Number → GcodeBlock Number
  convert_units b =
      if b.modal.units == units_mode_inches
      then with_values
          (λ v. record v {
            xyz = each (λ i.
                if has_axis b.axis_words i then multiply (at v.xyz i) mm_per_inch else at v.xyz i);
          })
          b
      else b
