-- ===== src/Gcode/Checking.antt =====
-- STEP 3 of gc_execute_line (gcode.c, lines 365 to 836) as a whole, in the code's order.
use zephyr_grbl.Prelude.{ℕ, Bool, Option}
use zephyr_grbl.Gcode.Codes.{}
use zephyr_grbl.Gcode.Defs.{Arithmetic, Vec, Parser, GcodeBlock, Result, ◌>>=◌, ◌>>◌, done}
use zephyr_grbl.Gcode.Checks.{
  Plane, select_plane, imply_motion, check_line_number, check_dwell, check_tool_length,
  set_feed_rate, set_spindle_speed, convert_units,
}
use zephyr_grbl.Gcode.NonModal.{select_coord_system, non_modal_actions}
use zephyr_grbl.Gcode.MotionModes.{check_motion, check_unused_words}

-- What STEP 4 reads: the block, block_coord_system, coord_select and the axes of the plane.
pub record Checked (F : Type 0) : Type 0 where
  pub block : GcodeBlock F
  pub coord_system : Vec F
  pub coord_select : ℕ
  pub plane : Plane

module _ (ops : Arithmetic)
    (settings_read_coord_data : ℕ → Vec ops.floats.Float → Option (Vec ops.floats.Float)) where
  open ops use {floats}

  unfoldable pub check_block :
      Bool → Parser floats.Float → GcodeBlock floats.Float → Result (Checked floats.Float)
  check_block jog gs b = do
    let b0 = imply_motion b
    check_line_number b0
    b1 ← set_feed_rate ops jog gs b0
    b2 ← check_dwell (set_spindle_speed ops gs b1)
    let plane = select_plane b2.modal.plane_select
    let b3 = convert_units ops b2
    check_tool_length b3
    coord_system ← select_coord_system ops settings_read_coord_data gs b3
    selected ← non_modal_actions ops settings_read_coord_data gs coord_system b3
    b4 ← check_motion ops plane gs selected.1
    b5 ← check_unused_words ops jog b4
    done (record {
      block = b5;
      coord_system = coord_system;
      coord_select = selected.0;
      plane = plane;
    })
