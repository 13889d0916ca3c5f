-- ===== src/Gcode/Rejected.antt =====
-- A line that is rejected (gcode.c): what it leaves of the parser state and which calls it makes.
use zephyr_grbl.Prelude.{
  ◌==◌, if◌then◌else◌, if_split, ℕ, ◌≡◌, sym, ap, ◌⊎◌, inl, inr, Bool, Option, some, List, arith,
}
use zephyr_grbl.Gcode.Codes.{program_flow_running, program_flow_paused}
use zephyr_grbl.Gcode.Defs.{Arithmetic, Vec, GcodeBlock, GcodeStatus, setting_read_fail, done, fail}
use zephyr_grbl.Gcode.Words.{Line}
use zephyr_grbl.Gcode.Checking.{Checked}
use zephyr_grbl.Gcode.Effects.{Run, Surroundings}
use zephyr_grbl.Gcode.Execute.{jog_execute, execute_jog}
use zephyr_grbl.Gcode.Motions.{}
use zephyr_grbl.Gcode.Running.{
  complete_program, execute_program_flow, execute_block, parse_block, execute_words,
  gc_execute_line,
}

module _ (ops : Arithmetic)
    (settings_read_coord_data : ℕ → Vec ops.floats.Float → Option (Vec ops.floats.Float)) where
  open ops use {floats}

  complete_program-status :
      (io : Surroundings floats.Float) (r r' : Run floats.Float) (status : GcodeStatus)
      → complete_program ops settings_read_coord_data io r ≡ (some status, r')
      → status ≡ setting_read_fail
  unfolding complete_program
  complete_program-status io r r' status h = ground arith

  execute_jog-rejected :
      (io : Surroundings floats.Float) (c : Checked floats.Float) (r r' : Run floats.Float)
      (status : GcodeStatus)
      → execute_jog ops io c r ≡ (some status, r')
      → r' ≡ r
  unfolding execute_jog jog_execute
  execute_jog-rejected io c r r' status h = ground arith

  execute_program_flow-status :
      (io : Surroundings floats.Float) (b : GcodeBlock floats.Float) (r r' : Run floats.Float)
      (status : GcodeStatus)
      → execute_program_flow ops settings_read_coord_data io b r ≡ (some status, r')
      → status ≡ setting_read_fail
  unfolding execute_program_flow
  execute_program_flow-status io b r r' status =
      let Goal = λ (x : Option GcodeStatus × Run floats.Float).
        x ≡ (some status, r') → status ≡ setting_read_fail in
      if_split Goal (b.modal.program_flow == program_flow_running) (λ _ h. ground arith)
        (λ _.
          if_split Goal (b.modal.program_flow == program_flow_paused) (λ _ h. ground arith)
            (λ _ h. complete_program-status io _ r' status h))

  -- The four steps on the words of a line.
  execute_words-rejected :
      (io : Surroundings floats.Float) (jog : Bool) (line : Line ops) (r r' : Run floats.Float)
      (status : GcodeStatus)
      → execute_words ops settings_read_coord_data io jog line r ≡ (some status, r')
      → (status ≡ setting_read_fail) ⊎ (r' ≡ r)
  unfolding execute_words execute_block
  execute_words-rejected io jog line r r' status =
      elim (parse_block ops settings_read_coord_data jog r.gs line)
        as (λ x.
          elim x [
            | fail s ↦ (some s, r)
            | done c ↦
                if jog
                then execute_jog ops io c r
                else execute_block ops settings_read_coord_data io c r
          ]
            ≡ (some status, r')
          → (status ≡ setting_read_fail) ⊎ (r' ≡ r)) [
            | fail s ↦ λ h. inr (sym (ap (λ x. x.1) h))
            | done c ↦
                if_split
                  (λ (x : Option GcodeStatus × Run floats.Float).
                    x ≡ (some status, r') → (status ≡ setting_read_fail) ⊎ (r' ≡ r))
                  jog (λ _ h. inr (execute_jog-rejected io c r r' status h))
                  (λ _ h. inl (execute_program_flow-status io c.block _ r' status h))
          ]

  -- A line that gc_execute_line rejects leaves gc_state as it was and makes no call, whatever the
  -- line; only a failure to read a coordinate system, at the end of a program, can come later.
  pub gc_execute_line-rejected :
      (io : Surroundings floats.Float) (line : List ℕ) (r r' : Run floats.Float)
      (status : GcodeStatus)
      → gc_execute_line ops settings_read_coord_data io line r ≡ (some status, r')
      → (status ≡ setting_read_fail) ⊎ (r' ≡ r)
  unfolding gc_execute_line
  gc_execute_line-rejected io line r r' status h = execute_words-rejected io _ _ r r' status h
