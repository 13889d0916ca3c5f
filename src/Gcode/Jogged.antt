-- ===== src/Gcode/Jogged.antt =====
-- A jog line, $J=, that is accepted (gcode.c, lines 853 to 866, and jog.c).
use zephyr_grbl.Prelude.{
  ℕ, ◌≡◌, refl, sym, ◌∙◌, ◌⊎◌, inl, inr, Bool, true, false, Option, none, some, List, ◌∷◌, arith,
}
use zephyr_grbl.Flags.{bit, ◌bor◌}
use zephyr_grbl.Gcode.Defs.{Arithmetic, Vec, GcodeStatus, done, fail}
use zephyr_grbl.Gcode.Words.{Line}
use zephyr_grbl.Gcode.Checking.{Checked}
use zephyr_grbl.Gcode.Effects.{LineData, Run, Surroundings, mc_line, start_jog}
use zephyr_grbl.Gcode.Execute.{system_check_travel_limits, jog_execute, execute_jog}
use zephyr_grbl.Gcode.Motions.{}
use zephyr_grbl.Gcode.Running.{is_jog_line, parse_block, execute_words, gc_execute_line}
use zephyr_grbl.Gcode.Results.{Result-cases}

module _ (ops : Arithmetic)
    (settings_read_coord_data : ℕ → Vec ops.floats.Float → Option (Vec ops.floats.Float)) where
  open ops use {floats}

  -- What an accepted jog does: there is a target, within the travel if the soft limits are on; the
  -- planner gets the line to it; the position becomes the target and nothing else of gc_state
  -- changes.
  pub record Jogged (io : Surroundings floats.Float) (r r' : Run floats.Float) : Type 0 where
    pub target : Vec floats.Float
    pub line_data : LineData floats.Float
    pub gs_lem : r'.gs ≡ record (r.gs) { position = target }
    pub travel_lem :
        io.soft_limits ≡ true → system_check_travel_limits ops io.max_travel target ≡ false
    pub calls_lem :
        (r'.calls ≡ mc_line target line_data ∷ r.calls)
        ⊎ (r'.calls ≡ start_jog ∷ mc_line target line_data ∷ r.calls)

  execute_jog-gs :
      (io : Surroundings floats.Float) (c : Checked floats.Float) (r r' : Run floats.Float)
      → execute_jog ops io c r ≡ (none, r')
      → r'.gs ≡ record (r.gs) { position = c.block.values.xyz }
  unfolding execute_jog jog_execute
  execute_jog-gs io c r r' h = ground arith

  execute_jog-travel :
      (io : Surroundings floats.Float) (c : Checked floats.Float) (r r' : Run floats.Float)
      → execute_jog ops io c r ≡ (none, r')
      → io.soft_limits ≡ true
      → system_check_travel_limits ops io.max_travel c.block.values.xyz ≡ false
  unfolding execute_jog jog_execute
  execute_jog-travel io c r r' h soft = ground arith

  abbrev jog_data : Checked floats.Float → Run floats.Float → LineData floats.Float
  jog_data c r = record {
    feed_rate = c.block.values.f;
    spindle_speed = r.gs.spindle_speed;
    condition = (r.gs.modal.spindle bor r.gs.modal.coolant) bor bit 2;
  }

  execute_jog-calls :
      (io : Surroundings floats.Float) (c : Checked floats.Float) (r r' : Run floats.Float)
      → execute_jog ops io c r ≡ (none, r')
      → (r'.calls ≡ mc_line c.block.values.xyz (jog_data c r) ∷ r.calls)
        ⊎ (r'.calls ≡ start_jog ∷ mc_line c.block.values.xyz (jog_data c r) ∷ r.calls)
  unfolding execute_jog jog_execute
  execute_jog-calls io c r r' h = ground arith

  execute_jog-Jogged :
      (io : Surroundings floats.Float) (c : Checked floats.Float) (r r' : Run floats.Float)
      → execute_jog ops io c r ≡ (none, r')
      → Jogged io r r'
  execute_jog-Jogged io c r r' h = record {
    target = c.block.values.xyz;
    line_data = jog_data c r;
    gs_lem = execute_jog-gs io c r r' h;
    travel_lem = execute_jog-travel io c r r' h;
    calls_lem = execute_jog-calls io c r r' h;
  }

  stopped :
      (io : Surroundings floats.Float) (jog : Bool) (line : Line ops) (r : Run floats.Float)
      (s : GcodeStatus)
      → parse_block ops settings_read_coord_data jog r.gs line ≡ fail s
      → execute_words ops settings_read_coord_data io jog line r ≡ (some s, r)
  unfolding execute_words
  stopped io jog line r s e = rw (e, execute_words) refl

  started :
      (io : Surroundings floats.Float) (line : Line ops) (r : Run floats.Float)
      (c : Checked floats.Float)
      → parse_block ops settings_read_coord_data true r.gs line ≡ done c
      → execute_words ops settings_read_coord_data io true line r ≡ execute_jog ops io c r
  unfolding execute_words
  started io line r c e = rw (e, execute_words) refl

  execute_words-Jogged :
      (io : Surroundings floats.Float) (jog : Bool) (line : Line ops) (r r' : Run floats.Float)
      → jog ≡ true
      → execute_words ops settings_read_coord_data io jog line r ≡ (none, r')
      → Jogged io r r'
  unfolding execute_words
  execute_words-Jogged io false line r r' jog h = ground arith
  execute_words-Jogged io true line r r' jog h =
      elim (Result-cases (parse_block ops settings_read_coord_data true r.gs line)) [
        | inl (s, e) ↦ let never = sym (stopped io true line r s e) ∙ h in ground arith
        | inr (c, e) ↦ execute_jog-Jogged io c r r' (sym (started io line r c e) ∙ h)
      ]

  -- A jog line that returns STATUS_OK, whatever else it says.
  pub gc_execute_line-Jogged :
      (io : Surroundings floats.Float) (line : List ℕ) (r r' : Run floats.Float)
      → is_jog_line line ≡ true
      → gc_execute_line ops settings_read_coord_data io line r ≡ (none, r')
      → Jogged io r r'
  unfolding gc_execute_line
  gc_execute_line-Jogged io line r r' jog h =
      execute_words-Jogged io (is_jog_line line) _ r r' jog h
