-- ===== src/Gcode/ValidModes.antt =====
-- The modes of the parser (gc_modal_t) hold only the values that gcode.h lists for them, after any
-- line.
use zephyr_grbl.Prelude.{leb, ◌==◌, ℕ, ◌≡◌, Bool, true, not, ◌&&◌, ◌||◌, arith}
use zephyr_grbl.Flags.{Byte}
use zephyr_grbl.Gcode.Codes.{
  motion_mode_ccw_arc, motion_mode_none, program_flow_running, program_flow_paused,
  program_flow_completed_m2, program_flow_completed_m30,
}
use zephyr_grbl.Gcode.Defs.{Modal, GcodeBlock, done}
use zephyr_grbl.Gcode.CommandWords.{
  between, Command, non_modal_word, motion_word, distance_word, tool_length_word, mode_word,
  m_command,
}
use zephyr_grbl.Gcode.Words.{}
use zephyr_grbl.Gcode.Checks.{}
use zephyr_grbl.Gcode.NonModal.{}
use zephyr_grbl.Gcode.MotionModes.{is_probe}
use zephyr_grbl.Gcode.Checking.{}
use zephyr_grbl.Gcode.Results.{}

-- MOTION_MODE_SEEK to MOTION_MODE_NONE
abbrev pub is_motion_mode : ℕ → Bool
is_motion_mode m = leb m motion_mode_ccw_arc || (is_probe m || m == motion_mode_none)

-- PROGRAM_FLOW_RUNNING to PROGRAM_FLOW_COMPLETED_M30
abbrev pub is_program_flow : ℕ → Bool
is_program_flow p =
    p == program_flow_running
    || (p == program_flow_paused
        || (p == program_flow_completed_m2 || p == program_flow_completed_m30))

-- SPINDLE_DISABLE, SPINDLE_ENABLE_CW or SPINDLE_ENABLE_CCW
abbrev pub is_spindle : Byte → Bool
is_spindle s =
    not (s.b4 && s.b5)
    && (not s.b0 && (not s.b1 && (not s.b2 && (not s.b3 && (not s.b6 && not s.b7)))))

-- COOLANT_DISABLE, COOLANT_FLOOD_ENABLE, COOLANT_MIST_ENABLE or both of the last two
abbrev pub is_coolant : Byte → Bool
is_coolant c = not c.b0 && (not c.b1 && (not c.b2 && (not c.b3 && (not c.b4 && not c.b5))))

-- The values that gcode.h lists for each mode.
pub record IsValidModal (m : Modal) : Type 0 where
  pub motion_lem : is_motion_mode m.motion ≡ true
  pub feed_rate_lem : leb m.feed_rate 1 ≡ true
  pub units_lem : leb m.units 1 ≡ true
  pub distance_lem : leb m.distance 1 ≡ true
  pub plane_lem : leb m.plane_select 2 ≡ true
  pub tool_length_lem : leb m.tool_length 1 ≡ true
  pub coord_select_lem : leb m.coord_select 5 ≡ true
  pub program_flow_lem : is_program_flow m.program_flow ≡ true
  pub spindle_lem : is_spindle m.spindle ≡ true
  pub coolant_lem : is_coolant m.coolant ≡ true

module _ {F : Type 0} where
  pub non_modal_word-modal :
      (n mantissa : ℕ) (b : GcodeBlock F) (c : Command F)
      → non_modal_word n mantissa b ≡ done c
      → c.block.modal ≡ b.modal
  unfolding non_modal_word
  non_modal_word-modal n mantissa b c h = ground arith

  pub motion_word-modal :
      (n mantissa : ℕ) (b : GcodeBlock F) (c : Command F)
      → motion_word n mantissa b ≡ done c
      → c.block.modal ≡ record (b.modal) { motion = c.block.modal.motion }
  unfolding motion_word
  motion_word-modal n mantissa b c h = ground arith

  pub motion_word-motion :
      (n mantissa : ℕ) (b : GcodeBlock F) (c : Command F)
      → motion_word n mantissa b ≡ done c
      → leb n 3 || (n == 38 || n == 80) ≡ true
      → is_motion_mode c.block.modal.motion ≡ true
  unfolding motion_word
  motion_word-motion n mantissa b c h i = ground arith

  pub distance_word-modal :
      (n mantissa : ℕ) (b : GcodeBlock F) (c : Command F)
      → distance_word n mantissa b ≡ done c
      → c.block.modal ≡ record (b.modal) { distance = c.block.modal.distance }
  unfolding distance_word
  distance_word-modal n mantissa b c h = ground arith

  pub distance_word-distance :
      (n mantissa : ℕ) (b : GcodeBlock F) (c : Command F)
      → distance_word n mantissa b ≡ done c
      → between 90 91 n ≡ true
      → leb b.modal.distance 1 ≡ true
      → leb c.block.modal.distance 1 ≡ true
  unfolding distance_word
  distance_word-distance n mantissa b c h i j = ground arith

  pub tool_length_word-modal :
      (n mantissa : ℕ) (b : GcodeBlock F) (c : Command F)
      → tool_length_word n mantissa b ≡ done c
      → c.block.modal ≡ record (b.modal) { tool_length = c.block.modal.tool_length }
  unfolding tool_length_word
  tool_length_word-modal n mantissa b c h = ground arith

  pub tool_length_word-length :
      (n mantissa : ℕ) (b : GcodeBlock F) (c : Command F)
      → tool_length_word n mantissa b ≡ done c
      → leb c.block.modal.tool_length 1 ≡ true
  unfolding tool_length_word
  tool_length_word-length n mantissa b c h = ground arith

  pub mode_word-modal :
      (n mantissa : ℕ) (b : GcodeBlock F) (c : Command F)
      → mode_word n mantissa b ≡ done c
      → c.block.modal ≡ record (b.modal) {
        plane_select = c.block.modal.plane_select;
        feed_rate = c.block.modal.feed_rate;
        units = c.block.modal.units;
        coord_select = c.block.modal.coord_select;
      }
  unfolding mode_word
  mode_word-modal n mantissa b c h = ground arith

  pub mode_word-plane :
      (n mantissa : ℕ) (b : GcodeBlock F) (c : Command F)
      → mode_word n mantissa b ≡ done c
      → leb b.modal.plane_select 2 ≡ true
      → leb c.block.modal.plane_select 2 ≡ true
  unfolding mode_word
  mode_word-plane n mantissa b c h i = ground arith

  pub mode_word-feed_rate :
      (n mantissa : ℕ) (b : GcodeBlock F) (c : Command F)
      → mode_word n mantissa b ≡ done c
      → leb b.modal.feed_rate 1 ≡ true
      → leb c.block.modal.feed_rate 1 ≡ true
  unfolding mode_word
  mode_word-feed_rate n mantissa b c h i = ground arith

  pub mode_word-units :
      (n mantissa : ℕ) (b : GcodeBlock F) (c : Command F)
      → mode_word n mantissa b ≡ done c
      → leb b.modal.units 1 ≡ true
      → leb c.block.modal.units 1 ≡ true
  unfolding mode_word
  mode_word-units n mantissa b c h i = ground arith

  pub mode_word-coord_select :
      (n mantissa : ℕ) (b : GcodeBlock F) (c : Command F)
      → mode_word n mantissa b ≡ done c
      → leb b.modal.coord_select 5 ≡ true
      → leb c.block.modal.coord_select 5 ≡ true
  unfolding mode_word
  mode_word-coord_select n mantissa b c h i = ground arith

  pub m_command-modal :
      (n : ℕ) (b : GcodeBlock F) (c : Command F)
      → m_command n b ≡ done c
      → c.block.modal ≡ record (b.modal) {
        program_flow = c.block.modal.program_flow;
        spindle = c.block.modal.spindle;
        coolant = c.block.modal.coolant;
      }
  unfolding m_command
  m_command-modal n b c h = ground arith

  pub m_command-flow :
      (n : ℕ) (b : GcodeBlock F) (c : Command F)
      → m_command n b ≡ done c
      → is_program_flow b.modal.program_flow ≡ true
      → is_program_flow c.block.modal.program_flow ≡ true
  unfolding m_command
  m_command-flow n b c h i = ground arith

  pub m_command-spindle :
      (n : ℕ) (b : GcodeBlock F) (c : Command F)
      → m_command n b ≡ done c
      → is_spindle b.modal.spindle ≡ true
      → is_spindle c.block.modal.spindle ≡ true
  unfolding m_command
  m_command-spindle n b c h i = ground arith

  pub m_command-coolant :
      (n : ℕ) (b : GcodeBlock F) (c : Command F)
      → m_command n b ≡ done c
      → is_coolant b.modal.coolant ≡ true
      → is_coolant c.block.modal.coolant ≡ true
  unfolding m_command
  m_command-coolant n b c h i = ground arith
