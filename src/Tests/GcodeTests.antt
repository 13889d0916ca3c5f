-- ===== src/Tests/GcodeTests.antt =====
-- The theorems on the g-code parser at concrete lines. Values are thousandths.
use zephyr_grbl.Prelude.{
  ltb, ◌==◌, ℕ, ◌+◌, ◌-◌, ◌*◌, ◌/◌, ◌%◌, ◌≤◌, ◌≡◌, refl, ◌⊎◌, true, false, Option, List, [], ◌∷◌,
  arith,
}
use zephyr_grbl.Flags.{}
use zephyr_grbl.Number.{
  scan_digit, scan_char, scan, read_sign, FloatOps, scale_down, scale_up, apply_decimal, read_float,
}
use zephyr_grbl.Gcode.{
  modal_group_g1, word_x, Arithmetic, Vec, Parser, Result, setting_read_fail, undefined_feed_rate,
  done, fail, non_modal_word, motion_word, distance_word, tool_length_word, mode_word, g_command,
  m_command, add_command, g_word, m_word, value_word, add_value, read_word, Line, words_of,
  read_words, end_of_line, word, select_plane, imply_motion, check_line_number, check_dwell,
  check_tool_length, set_feed_rate, set_spindle_speed, convert_units, select_coord_system,
  target_of, set_target, check_other_non_modal, non_modal_actions, check_line, check_motion,
  use_common_words, use_axis_words, check_unused_words, Checked, check_block, Run, Surroundings,
  unchanged, GcodeBlock, go_home, system_check_travel_limits, jog_execute, is_jog_command,
  execute_jog, laser_flags, set_speeds, set_spindle_and_coolant, set_tool_length, set_coord_system,
  set_modes, execute_non_modal, execute_motion, reset_modes, stop_all, complete_program,
  execute_program_flow, execute_block, initial_block, parse_block, execute_words, gc_execute_line,
  zero_modal, gc_init,
}
use zephyr_grbl.Gcode.OncePerLetter.{letter_index}
use zephyr_grbl.Gcode.Accepted.{group_of, count_words, parse_block-groups, parse_block-letters}
use zephyr_grbl.Gcode.OneAxisCommand.{claims_axes, parse_block-axis_commands}
use zephyr_grbl.Gcode.Rejected.{gc_execute_line-rejected}
use zephyr_grbl.Gcode.Modes.{tool_length_of, modes_after, execute_block-modal}
use zephyr_grbl.Gcode.Stored.{stored_coord_data}
use zephyr_grbl.Gcode.ValidModes.{IsValidModal}
use zephyr_grbl.Gcode.LineModes.{gc_execute_line-IsValidModal}
use zephyr_grbl.Gcode.Jogged.{Jogged, gc_execute_line-Jogged}
use zephyr_grbl.Gcode.Fuel.{words_of-fuel}
use zephyr_grbl.Gcode.Arrivals.{Arrives, execute_block-Arrives}

abbrev numbers : FloatOps
numbers = record {
  Float = ℕ;
  of_uint32 = λ n. n * 1000;
  is_zero = λ n. n == 0;
  times_hundredth = λ n. n / 100;
  times_tenth = λ n. n / 10;
  times_ten = λ n. n * 10;
  negate = λ n. n;
}

abbrev values : Arithmetic
values = record {
  floats = numbers;
  add = λ a b. a + b;
  subtract = λ a b. a - b;
  multiply = λ a b. a * b / 1000;
  divide = λ a b. a * 1000 / b;
  sqrt = λ a. a;
  fabs = λ a. a;
  less = ltb;
  equal = λ a b. a == b;
  identical = λ a b. a == b;
  trunc_byte = λ a. a / 1000 % 256;
  trunc_int = λ a. a / 1000;
  mantissa = λ a n. (a - n * 1000) / 10;
  above_max_tool = λ a. ltb 255000 a;
  zero_value = 0;
  mm_per_inch = 25400;
  four = 4000;
  half = 500;
  five_thousandths = 5;
  thousandth = 1;
}

abbrev stored : ℕ → Vec ℕ → Option (Vec ℕ)
stored = stored_coord_data

abbrev first_state : Parser ℕ
first_state = record {
  modal = zero_modal values stored;
  spindle_speed = 0;
  feed_rate = 0;
  tool = 0;
  line_number = 0;
  position = record { x = 0; y = 0; z = 0 };
  coord_system = record { x = 0; y = 0; z = 0 };
  coord_offset = record { x = 0; y = 0; z = 0 };
  tool_length_offset = 0;
}

abbrev first_run : Run ℕ
first_run = record { gs = first_state; calls = [] }

-- Soft limits on: 200 mm of travel, which is the negative of max_travel.
abbrev bench : Surroundings ℕ
bench = record {
  laser_mode = false;
  soft_limits = true;
  max_travel = record { x = 0; y = 0; z = 0 };
  idle = true;
  checking = false;
  has_planned = true;
  probe = λ t. (unchanged, (t, t));
}

-- G1X10F100M3
abbrev cut : Line values
cut = word b'G' 1000 (word b'X' 10000 (word b'F' 100000 (word b'M' 3000 end_of_line)))

abbrev taken : Result (Checked ℕ) → Checked ℕ
taken (done c) = c
taken (fail _) = record {
  block = initial_block values stored false first_state;
  coord_system = first_state.coord_system;
  coord_select = 0;
  plane = record { axis_0 = 0; axis_1 = 1; axis_linear = 2 };
}

abbrev cut_block : Checked ℕ
cut_block = taken (parse_block values stored false first_state cut)

parse_block-groups_example :
    count_words values (λ letter v. modal_group_g1 == group_of values letter v) cut ≤ 1
unfolding words_of read_float scan scan_char scan_digit read_sign apply_decimal scale_down scale_up
    parse_block initial_block read_words read_word value_word add_value g_word m_word g_command
    m_command non_modal_word motion_word distance_word tool_length_word mode_word add_command
    check_block imply_motion check_line_number set_feed_rate check_dwell set_spindle_speed
    select_plane convert_units check_tool_length select_coord_system non_modal_actions
    check_other_non_modal set_target target_of check_motion check_line check_unused_words
    use_common_words use_axis_words
parse_block-groups_example =
    parse_block-groups values stored false first_state cut cut_block modal_group_g1 (omega arith)
      refl

parse_block-letters_example : count_words values (λ letter _. word_x == letter_index letter) cut ≤ 1
unfolding words_of read_float scan scan_char scan_digit read_sign apply_decimal scale_down scale_up
    parse_block initial_block read_words read_word value_word add_value g_word m_word g_command
    m_command non_modal_word motion_word distance_word tool_length_word mode_word add_command
    check_block imply_motion check_line_number set_feed_rate check_dwell set_spindle_speed
    select_plane convert_units check_tool_length select_coord_system non_modal_actions
    check_other_non_modal set_target target_of check_motion check_line check_unused_words
    use_common_words use_axis_words
parse_block-letters_example =
    parse_block-letters values stored false first_state cut cut_block word_x (omega arith) refl

parse_block-axis_commands_example : count_words values (claims_axes values) cut ≤ 1
unfolding words_of read_float scan scan_char scan_digit read_sign apply_decimal scale_down scale_up
    parse_block initial_block read_words read_word value_word add_value g_word m_word g_command
    m_command non_modal_word motion_word distance_word tool_length_word mode_word add_command
    check_block imply_motion check_line_number set_feed_rate check_dwell set_spindle_speed
    select_plane convert_units check_tool_length select_coord_system non_modal_actions
    check_other_non_modal set_target target_of check_motion check_line check_unused_words
    use_common_words use_axis_words
parse_block-axis_commands_example =
    parse_block-axis_commands values stored false first_state cut cut_block refl

-- G28X10, from the position (7000, 8000, 9000)
abbrev away_run : Run ℕ
away_run = record {
  gs = record first_state { position = record { x = 7000; y = 8000; z = 9000 } };
  calls = [];
}

abbrev words_taken : Result (GcodeBlock ℕ) → GcodeBlock ℕ
words_taken (done b) = b
words_taken (fail _) = initial_block values stored false first_state

abbrev home_words : GcodeBlock ℕ
home_words = words_taken (
    read_words values (word b'G' 28000 (word b'X' 10000 end_of_line))
      (initial_block values stored false away_run.gs))

abbrev home_block : Checked ℕ
home_block = taken (check_block values stored false away_run.gs home_words)

execute_block-Arrives_example :
    Arrives values stored home_words.values.ijk away_run.gs.position home_block.block
      (execute_block values stored bench home_block away_run).1.gs.position
unfolding words_of read_float scan scan_char scan_digit read_sign apply_decimal scale_down scale_up
    initial_block read_words read_word value_word add_value g_word m_word g_command m_command
    non_modal_word motion_word distance_word tool_length_word mode_word add_command check_block
    imply_motion check_line_number set_feed_rate check_dwell set_spindle_speed select_plane
    convert_units check_tool_length select_coord_system non_modal_actions go_home
    check_other_non_modal set_target target_of check_motion check_line check_unused_words
    use_common_words use_axis_words
execute_block-Arrives_example =
    execute_block-Arrives values stored bench home_words home_block away_run refl refl

-- G1 without a feed rate
gc_execute_line-rejected_example :
    (undefined_feed_rate ≡ setting_read_fail) ⊎ (first_run ≡ first_run)
unfolding words_of read_float scan scan_char scan_digit read_sign apply_decimal scale_down scale_up
    parse_block initial_block read_words read_word value_word add_value g_word m_word g_command
    m_command non_modal_word motion_word distance_word tool_length_word mode_word add_command
    check_block imply_motion check_line_number set_feed_rate check_dwell set_spindle_speed
    select_plane convert_units check_tool_length select_coord_system non_modal_actions
    check_other_non_modal set_target target_of check_motion check_line check_unused_words
    use_common_words use_axis_words execute_words execute_jog jog_execute is_jog_command
    system_check_travel_limits execute_block laser_flags set_speeds set_spindle_and_coolant
    set_modes set_coord_system set_tool_length execute_non_modal execute_motion execute_program_flow
    complete_program reset_modes stop_all gc_execute_line gc_init
gc_execute_line-rejected_example =
    gc_execute_line-rejected values stored bench (b'G' ∷ b'1' ∷ b'X' ∷ b'5' ∷ []) first_run
      first_run undefined_feed_rate refl

-- M30 with a motion
abbrev ending : Checked ℕ
ending = taken (
    parse_block values stored false first_state
      (word b'G' 1000 (word b'X' 10000 (word b'F' 100000 (word b'M' 30000 end_of_line)))))

abbrev after_ending : Run ℕ
after_ending = (execute_block values stored bench ending first_run).1

execute_block-modal_example :
    after_ending.gs.modal
    ≡ modes_after values stored (record (ending.block.modal) {
      tool_length = tool_length_of values ending.block first_run.gs.modal;
    })
unfolding words_of read_float scan scan_char scan_digit read_sign apply_decimal scale_down scale_up
    parse_block initial_block read_words read_word value_word add_value g_word m_word g_command
    m_command non_modal_word motion_word distance_word tool_length_word mode_word add_command
    check_block imply_motion check_line_number set_feed_rate check_dwell set_spindle_speed
    select_plane convert_units check_tool_length select_coord_system non_modal_actions
    check_other_non_modal set_target target_of check_motion check_line check_unused_words
    use_common_words use_axis_words execute_words execute_jog jog_execute is_jog_command
    system_check_travel_limits execute_block laser_flags set_speeds set_spindle_and_coolant
    set_modes set_coord_system set_tool_length execute_non_modal execute_motion execute_program_flow
    complete_program reset_modes stop_all gc_execute_line gc_init
execute_block-modal_example =
    execute_block-modal values stored bench ending first_run after_ending refl

gc_execute_line-IsValidModal_example :
    IsValidModal
      (gc_execute_line values stored bench
        (b'G' ∷ b'3' ∷ b'8' ∷ b'.' ∷ b'2' ∷ b'X' ∷ b'5' ∷ b'F' ∷ b'1' ∷ b'0' ∷ [])
        first_run).1.gs.modal
gc_execute_line-IsValidModal_example =
    gc_execute_line-IsValidModal values stored bench
      (b'G' ∷ b'3' ∷ b'8' ∷ b'.' ∷ b'2' ∷ b'X' ∷ b'5' ∷ b'F' ∷ b'1' ∷ b'0' ∷ []) first_run
      (record {
        motion_lem = refl;
        feed_rate_lem = refl;
        units_lem = refl;
        distance_lem = refl;
        plane_lem = refl;
        tool_length_lem = refl;
        coord_select_lem = refl;
        program_flow_lem = refl;
        spindle_lem = refl;
        coolant_lem = refl;
      })

abbrev jog_line : List ℕ
jog_line = (b'$' ∷ b'J' ∷ b'=' ∷ b'X' ∷ b'0' ∷ b'F' ∷ b'1' ∷ b'0' ∷ b'0' ∷ [])

abbrev after_jog : Run ℕ
after_jog = (gc_execute_line values stored bench jog_line first_run).1

gc_execute_line-Jogged_example : Jogged values stored bench first_run after_jog
unfolding words_of read_float scan scan_char scan_digit read_sign apply_decimal scale_down scale_up
    parse_block initial_block read_words read_word value_word add_value g_word m_word g_command
    m_command non_modal_word motion_word distance_word tool_length_word mode_word add_command
    check_block imply_motion check_line_number set_feed_rate check_dwell set_spindle_speed
    select_plane convert_units check_tool_length select_coord_system non_modal_actions
    check_other_non_modal set_target target_of check_motion check_line check_unused_words
    use_common_words use_axis_words execute_words execute_jog jog_execute is_jog_command
    system_check_travel_limits execute_block laser_flags set_speeds set_spindle_and_coolant
    set_modes set_coord_system set_tool_length execute_non_modal execute_motion execute_program_flow
    complete_program reset_modes stop_all gc_execute_line gc_init
gc_execute_line-Jogged_example =
    gc_execute_line-Jogged values stored bench jog_line first_run after_jog refl refl

words_of-fuel_example :
    words_of values 70 (b'G' ∷ b'1' ∷ b'X' ∷ b'5' ∷ [])
    ≡ words_of values 4 (b'G' ∷ b'1' ∷ b'X' ∷ b'5' ∷ [])
words_of-fuel_example = words_of-fuel values 70 (b'G' ∷ b'1' ∷ b'X' ∷ b'5' ∷ []) (omega arith)
