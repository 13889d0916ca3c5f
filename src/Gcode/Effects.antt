-- ===== src/Gcode/Effects.antt =====
-- What gc_execute_line reads from and asks of the rest of the program: the calls of STEP 4, kept in
-- order, and the planner data of a line (planner.h).
use zephyr_grbl.Prelude.{ℕ, Bool, List, ◌∷◌}
use zephyr_grbl.Flags.{Byte}
use zephyr_grbl.Gcode.Defs.{Vec, Modal, Parser}

-- plan_line_data_t
pub record LineData (F : Type 0) : Type 0 where
  pub feed_rate : F
  pub spindle_speed : F
  pub condition : Byte

-- A call, with its arguments.
pub data GcodeCall (F : Type 0) : Type 0 where
  spindle_sync : Byte → F → GcodeCall F
  coolant_sync : Byte → GcodeCall F
  mc_dwell : F → GcodeCall F
  mc_line : Vec F → LineData F → GcodeCall F
  -- target, data, start, offset, radius, the three axes, is_clockwise
  mc_arc : Vec F → LineData F → Vec F → Vec F → F → Vec ℕ → Bool → GcodeCall F
  -- target, data, away, no_error
  mc_probe_cycle : Vec F → LineData F → Bool → Bool → GcodeCall F
  settings_write_coord_data : ℕ → Vec F → GcodeCall F
  system_flag_wco_change protocol_buffer_synchronize feed_hold : GcodeCall F
  protocol_execute_realtime restore_overrides : GcodeCall F
  spindle_set_state : Byte → F → GcodeCall F
  coolant_set_state : Byte → GcodeCall F
  report_program_end start_jog : GcodeCall F

-- gc_state and the calls so far, the last one first.
pub record Run (F : Type 0) : Type 0 where
  pub gs : Parser F
  pub calls : List (GcodeCall F)

-- gc_update_pos
pub data UpdatePos : Type 0 where
  to_target to_system unchanged : UpdatePos

-- What STEP 4 reads from elsewhere: settings.flags and settings.max_travel, sys.state, whether the
-- planner has a block, and what mc_probe_cycle returns: the way to update the position, the target
-- it leaves, and sys_position in millimetres after it.
pub record Surroundings (F : Type 0) : Type 0 where
  pub laser_mode : Bool
  pub soft_limits : Bool
  pub max_travel : Vec F
  pub idle : Bool
  pub checking : Bool
  pub has_planned : Bool
  pub probe : Vec F → UpdatePos × (Vec F × Vec F)

module _ {F : Type 0} where
  abbrev pub make_call : GcodeCall F → Run F → Run F
  make_call c r = record r { calls = c ∷ r.calls }

  abbrev pub with_gs : (Parser F → Parser F) → Run F → Run F
  with_gs f r = record r { gs = f r.gs }

  abbrev pub with_modal : (Modal → Modal) → Run F → Run F
  with_modal f r = record r { gs = record (r.gs) { modal = f r.gs.modal } }
