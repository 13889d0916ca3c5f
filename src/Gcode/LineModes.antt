-- ===== src/Gcode/LineModes.antt =====
-- The modes stay valid over every line, whatever it returns (gcode.c, gc_execute_line).
use zephyr_grbl.Prelude.{
  leb, ◌==◌, Option-cases, if_split, ℕ, ◌≡◌, refl, sym, inl, inr, Bool, true, false, Option, List,
  arith,
}
use mathlib.Core.Path.{subst}
use zephyr_grbl.Gcode.Codes.{program_flow_running, program_flow_paused}
use zephyr_grbl.Gcode.Defs.{
  Arithmetic, Vec, Modal, Parser, GcodeBlock, GcodeStatus, axis_command_tool_length_offset, done,
}
use zephyr_grbl.Gcode.Words.{Line, read_words}
use zephyr_grbl.Gcode.Checking.{Checked}
use zephyr_grbl.Gcode.Effects.{Run, Surroundings}
use zephyr_grbl.Gcode.Execute.{jog_execute, execute_jog}
use zephyr_grbl.Gcode.Running.{
  reset_modes, set_running, stop_all, complete_program, execute_program_flow, execute_block,
  initial_block, parse_block, execute_words, gc_execute_line,
}
use zephyr_grbl.Gcode.Results.{bind-done_inv, Result-cases}
use zephyr_grbl.Gcode.ValidModes.{is_program_flow, IsValidModal}
use zephyr_grbl.Gcode.ModeInvariant.{read_words-IsValidModal}
use zephyr_grbl.Gcode.CheckedModes.{check_block-modal}
use zephyr_grbl.Gcode.Modes.{moved_by-modal}

with_flow :
    (m : Modal) (p : ℕ)
    → is_program_flow p ≡ true
    → IsValidModal m
    → IsValidModal (record m { program_flow = p })
with_flow m p e v = (record {
  motion_lem = v.motion_lem;
  feed_rate_lem = v.feed_rate_lem;
  units_lem = v.units_lem;
  distance_lem = v.distance_lem;
  plane_lem = v.plane_lem;
  tool_length_lem = v.tool_length_lem;
  coord_select_lem = v.coord_select_lem;
  program_flow_lem = e;
  spindle_lem = v.spindle_lem;
  coolant_lem = v.coolant_lem;
})

module _ (ops : Arithmetic)
    (settings_read_coord_data : ℕ → Vec ops.floats.Float → Option (Vec ops.floats.Float)) where
  open ops use {floats}

  reset_modes-IsValidModal :
      (m : Modal) → IsValidModal m → IsValidModal (reset_modes ops settings_read_coord_data m)
  unfolding reset_modes
  reset_modes-IsValidModal m v = (record {
    motion_lem = refl;
    feed_rate_lem = refl;
    units_lem = v.units_lem;
    distance_lem = refl;
    plane_lem = refl;
    tool_length_lem = v.tool_length_lem;
    coord_select_lem = refl;
    program_flow_lem = v.program_flow_lem;
    spindle_lem = refl;
    coolant_lem = refl;
  })

  complete_program-IsValidModal :
      (io : Surroundings floats.Float) (r : Run floats.Float)
      → IsValidModal r.gs.modal
      → IsValidModal (complete_program ops settings_read_coord_data io r).1.gs.modal
  unfolding complete_program stop_all
  complete_program-IsValidModal io r v =
      let Goal = λ (x : Option GcodeStatus × Run floats.Float). IsValidModal x.1.gs.modal in
      let reset = reset_modes-IsValidModal r.gs.modal v in
      let running =
        with_flow (reset_modes ops settings_read_coord_data r.gs.modal) program_flow_running refl
          reset in
      if_split Goal io.checking (λ _. running)
        (λ _. elim (Option-cases (settings_read_coord_data 0 r.gs.coord_system)) [
          | inl e ↦ rw (e) reset
          | inr (w, e) ↦ rw (e) running
        ])

  execute_program_flow-IsValidModal :
      (io : Surroundings floats.Float) (b : GcodeBlock floats.Float) (r : Run floats.Float)
      → is_program_flow b.modal.program_flow ≡ true
      → IsValidModal r.gs.modal
      → IsValidModal (execute_program_flow ops settings_read_coord_data io b r).1.gs.modal
  unfolding execute_program_flow
  execute_program_flow-IsValidModal io b r e v =
      let Goal = λ (x : Option GcodeStatus × Run floats.Float). IsValidModal x.1.gs.modal in
      let flowed = with_flow r.gs.modal b.modal.program_flow e v in
      if_split Goal (b.modal.program_flow == program_flow_running) (λ _. flowed)
        (λ _.
          if_split Goal (b.modal.program_flow == program_flow_paused)
            (λ _.
              if_split
                (λ (x : Run floats.Float).
                  IsValidModal (set_running ops settings_read_coord_data x).gs.modal)
                io.checking (λ _. with_flow r.gs.modal program_flow_running refl v)
                (λ _. with_flow r.gs.modal program_flow_running refl v))
            (λ _. complete_program-IsValidModal io _ flowed))

  execute_block-IsValidModal :
      (io : Surroundings floats.Float) (c : Checked floats.Float) (r : Run floats.Float)
      → IsValidModal c.block.modal
      → IsValidModal r.gs.modal
      → IsValidModal (execute_block ops settings_read_coord_data io c r).1.gs.modal
  unfolding execute_block
  execute_block-IsValidModal io c r b v =
      let length =
        if_split (λ x. leb x 1 ≡ true) (c.block.axis_command == axis_command_tool_length_offset)
          (λ _. b.tool_length_lem) (λ _. v.tool_length_lem) in
      execute_program_flow-IsValidModal io c.block _ b.program_flow_lem (
        subst IsValidModal (sym (moved_by-modal ops settings_read_coord_data io c r)) (record {
          motion_lem = b.motion_lem;
          feed_rate_lem = b.feed_rate_lem;
          units_lem = b.units_lem;
          distance_lem = b.distance_lem;
          plane_lem = b.plane_lem;
          tool_length_lem = length;
          coord_select_lem = b.coord_select_lem;
          program_flow_lem = v.program_flow_lem;
          spindle_lem = b.spindle_lem;
          coolant_lem = b.coolant_lem;
        }))

  initial_block-IsValidModal :
      (jog : Bool) (gs : Parser floats.Float)
      → IsValidModal gs.modal
      → IsValidModal (initial_block ops settings_read_coord_data jog gs).modal
  unfolding initial_block
  initial_block-IsValidModal true gs v = (record {
    motion_lem = refl;
    feed_rate_lem = refl;
    units_lem = v.units_lem;
    distance_lem = v.distance_lem;
    plane_lem = v.plane_lem;
    tool_length_lem = v.tool_length_lem;
    coord_select_lem = v.coord_select_lem;
    program_flow_lem = v.program_flow_lem;
    spindle_lem = v.spindle_lem;
    coolant_lem = v.coolant_lem;
  })
  initial_block-IsValidModal false gs v = v

  parse_block-IsValidModal :
      (jog : Bool) (gs : Parser floats.Float) (line : Line ops) (c : Checked floats.Float)
      → parse_block ops settings_read_coord_data jog gs line ≡ done c
      → IsValidModal gs.modal
      → IsValidModal c.block.modal
  unfolding parse_block
  parse_block-IsValidModal jog gs line c h v =
      let start = initial_block ops settings_read_coord_data jog gs in
      let (b, (read, checked)) = bind-done_inv (read_words ops line start) _ c h in
      subst IsValidModal (sym (check_block-modal ops settings_read_coord_data jog gs b c checked))
        (read_words-IsValidModal ops line start b read (initial_block-IsValidModal jog gs v))

  execute_jog-modal :
      (io : Surroundings floats.Float) (c : Checked floats.Float) (r : Run floats.Float)
      → (execute_jog ops io c r).1.gs.modal ≡ r.gs.modal
  unfolding execute_jog jog_execute
  execute_jog-modal io c r = ground arith

  execute_words-IsValidModal :
      (io : Surroundings floats.Float) (jog : Bool) (line : Line ops) (r : Run floats.Float)
      → IsValidModal r.gs.modal
      → IsValidModal (execute_words ops settings_read_coord_data io jog line r).1.gs.modal
  unfolding execute_words
  execute_words-IsValidModal io jog line r v =
      elim (Result-cases (parse_block ops settings_read_coord_data jog r.gs line)) [
        | inl (s, failed) ↦ rw (failed, execute_words) v
        | inr (c, accepted) ↦
            rw (accepted, execute_words)
              (if_split (λ (x : Option GcodeStatus × Run floats.Float). IsValidModal x.1.gs.modal)
                jog (λ _. subst IsValidModal (sym (execute_jog-modal io c r)) v)
                (λ _.
                  execute_block-IsValidModal io c r
                    (parse_block-IsValidModal jog r.gs line c accepted v) v))
      ]

  -- If the modes of the parser are values that gcode.h lists, they are after any line, accepted or
  -- rejected, a jog or not.
  pub gc_execute_line-IsValidModal :
      (io : Surroundings floats.Float) (line : List ℕ) (r : Run floats.Float)
      → IsValidModal r.gs.modal
      → IsValidModal (gc_execute_line ops settings_read_coord_data io line r).1.gs.modal
  unfolding gc_execute_line
  gc_execute_line-IsValidModal io line r v = execute_words-IsValidModal io _ _ r v
