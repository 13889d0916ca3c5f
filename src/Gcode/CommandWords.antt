-- ===== src/Gcode/CommandWords.antt =====
-- The G and M words of a block (gcode.c, lines 142 to 290).
use zephyr_grbl.Prelude.{leb, ◌==◌, if◌then◌else◌, ℕ, ◌+◌, ◌-◌, ◌/◌, Bool, not, ◌&&◌, ◌||◌}
use zephyr_grbl.Flags.{◌bor◌}
use zephyr_grbl.System.Masks.{coolant_flood_enable}
use zephyr_grbl.Gcode.Bits.{add_bit}
use zephyr_grbl.Gcode.Codes.{
  modal_group_g0, modal_group_g1, modal_group_g2, modal_group_g3, modal_group_g4, modal_group_g5,
  modal_group_g6, modal_group_g7, modal_group_g8, modal_group_g12, modal_group_g13, modal_group_m4,
  modal_group_m7, modal_group_m8, program_flow_paused, tool_length_offset_cancel,
  tool_length_offset_enable_dynamic, spindle_disable, spindle_enable_cw, spindle_enable_ccw,
  coolant_disable,
}
use zephyr_grbl.Gcode.Defs.{
  Modal, GcodeBlock, Result, ◌>>=◌, ◌>>◌, require, axis_command_none, axis_command_non_modal,
  axis_command_motion_mode, axis_command_tool_length_offset, unsupported_command,
  modal_group_violation, command_value_not_integer, axis_command_conflict, done, fail,
}

abbrev pub between : ℕ → ℕ → ℕ → Bool
between lo hi n = leb lo n && leb n hi

-- What a G or M command leaves: the bit of its modal group, the mantissa that is not accounted for,
-- and the block.
pub record Command (F : Type 0) : Type 0 where
  pub word_bit : ℕ
  pub rest : ℕ
  pub block : GcodeBlock F

module _ {F : Type 0} where
  abbrev modal_of : (Modal → Modal) → GcodeBlock F → GcodeBlock F
  modal_of f b = record b { modal = f b.modal }

  -- FAIL(STATUS_GCODE_AXIS_COMMAND_CONFLICT) or axis_command = command
  abbrev claim_axes : ℕ → GcodeBlock F → Result (GcodeBlock F)
  claim_axes command b =
      if b.axis_command == axis_command_none
      then done (record b { axis_command = command })
      else fail axis_command_conflict

  -- Lines 146 to 162: G10, G28, G30, G92 with their .1, G4 and G53.
  unfoldable pub non_modal_word : ℕ → ℕ → GcodeBlock F → Result (Command F)
  non_modal_word int_value mantissa b = do
    b1 ←
        (if (int_value == 10 || (int_value == 28 || (int_value == 30 || int_value == 92)))
            && mantissa == 0
          then claim_axes axis_command_non_modal b
          else done b)
    (if int_value == 28 || (int_value == 30 || int_value == 92)
        then (require (mantissa == 0 || mantissa == 10) unsupported_command
            >> done (record {
              word_bit = modal_group_g0;
              rest = 0;
              block = record b1 { non_modal_command = int_value + mantissa };
            }))
        else done (record {
          word_bit = modal_group_g0;
          rest = mantissa;
          block = record b1 { non_modal_command = int_value };
        }))

  -- Lines 163 to 179: G0, G1, G2, G3, G38.x and G80.
  unfoldable pub motion_word : ℕ → ℕ → GcodeBlock F → Result (Command F)
  motion_word int_value mantissa b = do
    b1 ← (if int_value == 80 then done b else claim_axes axis_command_motion_mode b)
    (if int_value == 38
        then (require (mantissa == 20 || (mantissa == 30 || (mantissa == 40 || mantissa == 50)))
              unsupported_command
            >> done (record {
              word_bit = modal_group_g1;
              rest = 0;
              block = modal_of (λ m. record m { motion = int_value + (mantissa / 10 + 100) }) b1;
            }))
        else done (record {
          word_bit = modal_group_g1;
          rest = mantissa;
          block = modal_of (λ m. record m { motion = int_value }) b1;
        }))

  -- Lines 184 to 194: G90, G91 and G91.1.
  unfoldable pub distance_word : ℕ → ℕ → GcodeBlock F → Result (Command F)
  distance_word int_value mantissa b =
      if mantissa == 0
      then done (record {
        word_bit = modal_group_g3;
        rest = 0;
        block = modal_of (λ m. record m { distance = int_value - 90 }) b;
      })
      else if not (mantissa == 10) || int_value == 90
      then fail unsupported_command
      else done (record { word_bit = modal_group_g4; rest = 0; block = b })

  -- Lines 209 to 222: G43.1 and G49.
  unfoldable pub tool_length_word : ℕ → ℕ → GcodeBlock F → Result (Command F)
  tool_length_word int_value mantissa b = do
    b1 ← claim_axes axis_command_tool_length_offset b
    (if int_value == 49
        then done (record {
          word_bit = modal_group_g8;
          rest = 0;
          block = modal_of (λ m. record m { tool_length = tool_length_offset_cancel }) b1;
        })
        else if mantissa == 10
        then done (record {
          word_bit = modal_group_g8;
          rest = 0;
          block = modal_of (λ m. record m { tool_length = tool_length_offset_enable_dynamic }) b1;
        })
        else fail unsupported_command)

  -- Lines 180 to 183, 195 to 208 and 223 to 233: the commands that set one mode or are ignored, and
  -- those that are not supported.
  unfoldable pub mode_word : ℕ → ℕ → GcodeBlock F → Result (Command F)
  mode_word n mantissa b =
      if between 17 19 n
      then done (record {
        word_bit = modal_group_g2;
        rest = mantissa;
        block = modal_of (λ m. record m { plane_select = n - 17 }) b;
      })
      else if between 93 94 n
      then done (record {
        word_bit = modal_group_g5;
        rest = mantissa;
        block = modal_of (λ m. record m { feed_rate = 94 - n }) b;
      })
      else if between 20 21 n
      then done (record {
        word_bit = modal_group_g6;
        rest = mantissa;
        block = modal_of (λ m. record m { units = 21 - n }) b;
      })
      else if n == 40
      then done (record { word_bit = modal_group_g7; rest = mantissa; block = b })
      else if between 54 59 n
      then done (record {
        word_bit = modal_group_g12;
        rest = mantissa;
        block = modal_of (λ m. record m { coord_select = n - 54 }) b;
      })
      else if n == 61
      then (if mantissa == 0
          then done (record { word_bit = modal_group_g13; rest = mantissa; block = b })
          else fail unsupported_command)
      else fail unsupported_command

  -- Lines 145 to 234: the switch over G commands.
  unfoldable pub g_command : ℕ → ℕ → GcodeBlock F → Result (Command F)
  g_command n mantissa b =
      if n == 4 || (n == 10 || (n == 28 || (n == 30 || (n == 53 || n == 92))))
      then non_modal_word n mantissa b
      else if leb n 3 || (n == 38 || n == 80)
      then motion_word n mantissa b
      else if between 90 91 n
      then distance_word n mantissa b
      else if n == 43 || n == 49
      then tool_length_word n mantissa b
      else mode_word n mantissa b

  -- Lines 246 to 284: the switch over M commands. (No M7 and no M56.)
  unfoldable pub m_command : ℕ → GcodeBlock F → Result (Command F)
  m_command n b =
      if n == 0
      then done (record {
        word_bit = modal_group_m4;
        rest = 0;
        block = modal_of (λ m. record m { program_flow = program_flow_paused }) b;
      })
      else if n == 1
      then done (record { word_bit = modal_group_m4; rest = 0; block = b })
      else if n == 2 || n == 30
      then done (record {
        word_bit = modal_group_m4;
        rest = 0;
        block = modal_of (λ m. record m { program_flow = n }) b;
      })
      else if between 3 5 n
      then done (record {
        word_bit = modal_group_m7;
        rest = 0;
        block =
            modal_of
              (λ m. record m {
                spindle =
                    if n == 3
                    then spindle_enable_cw
                    else if n == 4
                    then spindle_enable_ccw
                    else spindle_disable;
              })
              b;
      })
      else if between 8 9 n
      then done (record {
        word_bit = modal_group_m8;
        rest = 0;
        block =
            modal_of
              (λ m. record m {
                coolant = if n == 8 then m.coolant bor coolant_flood_enable else coolant_disable;
              })
              b;
      })
      else fail unsupported_command

  -- Lines 238 and 288: one command of a modal group in a block.
  unfoldable pub add_command : Command F → Result (GcodeBlock F)
  add_command c =
      if c.block.command_words c.word_bit
      then fail modal_group_violation
      else done (record (c.block) { command_words = add_bit c.word_bit c.block.command_words })

  unfoldable pub g_word : ℕ → ℕ → GcodeBlock F → Result (GcodeBlock F)
  g_word int_value mantissa b = do
    c ← g_command int_value mantissa b
    require (c.rest == 0) command_value_not_integer
    add_command c

  unfoldable pub m_word : ℕ → ℕ → GcodeBlock F → Result (GcodeBlock F)
  m_word int_value mantissa b = do
    require (mantissa == 0) command_value_not_integer
    c ← m_command int_value b
    add_command c
