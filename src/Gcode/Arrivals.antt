-- ===== src/Gcode/Arrivals.antt =====
-- The position of the parser after a block that STEP 3 has accepted (gcode.c, lines 365 to 1128).
use zephyr_grbl.Prelude.{
  Bool-cases, ℕ, ◌≡◌, refl, sym, ap, ◌∙◌, ◌⊎◌, inl, inr, Bool, true, false, Option, some, arith,
}
use mathlib.Core.Path.{subst}
use zephyr_grbl.Flags.{}
use zephyr_grbl.Gcode.Codes.{}
use zephyr_grbl.Gcode.Defs.{Arithmetic, Vec, Parser, GcodeBlock, done}
use zephyr_grbl.Gcode.Checks.{
  imply_motion, check_line_number, check_dwell, check_tool_length, set_feed_rate, set_spindle_speed,
  convert_units,
}
use zephyr_grbl.Gcode.NonModal.{select_coord_system, home_index, non_modal_actions}
use zephyr_grbl.Gcode.MotionModes.{check_motion, check_unused_words}
use zephyr_grbl.Gcode.Checking.{Checked, check_block}
use zephyr_grbl.Gcode.Results.{bind-done_inv, done_inj}
use zephyr_grbl.Gcode.Effects.{Run, Surroundings}
use zephyr_grbl.Gcode.Running.{execute_block}
use zephyr_grbl.Gcode.Positions.{goes_home, moves, probes, position_after, execute_block-position}
use zephyr_grbl.Gcode.Homes.{
  KeepsHome, check_motion-KeepsHome, check_unused_words-KeepsHome, way_home, Homeward,
  non_modal_actions-Homeward,
}

module _ (ops : Arithmetic) where
  open ops use {floats}

  imply_motion-ijk : (b : GcodeBlock floats.Float) → (imply_motion b).values.ijk ≡ b.values.ijk
  unfolding imply_motion
  imply_motion-ijk b = ground arith

  set_feed_rate-ijk :
      (jog : Bool) (gs : Parser floats.Float) (b : GcodeBlock floats.Float)
      (c : GcodeBlock floats.Float)
      → set_feed_rate ops jog gs b ≡ done c
      → c.values.ijk ≡ b.values.ijk
  unfolding set_feed_rate
  set_feed_rate-ijk jog gs b c h = ground arith

  check_dwell-ijk :
      (b : GcodeBlock floats.Float) (c : GcodeBlock floats.Float)
      → check_dwell b ≡ done c
      → c.values.ijk ≡ b.values.ijk
  unfolding check_dwell
  check_dwell-ijk b c h = ground arith

  set_spindle_speed-ijk :
      (gs : Parser floats.Float) (b : GcodeBlock floats.Float)
      → (set_spindle_speed ops gs b).values.ijk ≡ b.values.ijk
  unfolding set_spindle_speed
  set_spindle_speed-ijk gs b = ground arith

  convert_units-ijk :
      (b : GcodeBlock floats.Float) → (convert_units ops b).values.ijk ≡ b.values.ijk
  unfolding convert_units
  convert_units-ijk b = ground arith

module _ (ops : Arithmetic)
    (settings_read_coord_data : ℕ → Vec ops.floats.Float → Option (Vec ops.floats.Float)) where
  open ops use {floats}

  -- The rest of STEP 3 leaves the way home as it is.
  Homeward-kept :
      (before old : Vec floats.Float) (b c : GcodeBlock floats.Float)
      → KeepsHome ops b c
      → Homeward ops settings_read_coord_data before old b
      → Homeward ops settings_read_coord_data before old c
  unfolding KeepsHome
  Homeward-kept before old b c (ijk, words, command) (home, (read, way)) = (
    home,
    (
      rw (command) read,
      ijk ∙ (way ∙ ap (λ w. way_home ops settings_read_coord_data w home old) (sym words)),
    ),
  )

  KeepsHome-goes :
      (b c : GcodeBlock floats.Float) → KeepsHome ops b c → goes_home ops c ≡ goes_home ops b
  unfolding KeepsHome
  KeepsHome-goes b c (ijk, words, command) = rw (command) refl

  pub check_block-Homeward :
      (jog : Bool) (gs : Parser floats.Float) (b : GcodeBlock floats.Float)
      (c : Checked floats.Float)
      → check_block ops settings_read_coord_data jog gs b ≡ done c
      → moves ops c.block ≡ false
      → goes_home ops c.block ≡ true
      → Homeward ops settings_read_coord_data b.values.ijk gs.position c.block
  unfolding check_block
  check_block-Homeward jog gs b c h still goes =
      let b0 = imply_motion b in
      let (_, h1) = bind-done_inv (check_line_number b0) _ c h in
      let (b1, (fed, h2)) = bind-done_inv (set_feed_rate ops jog gs b0) _ c h1.1 in
      let spun = set_spindle_speed ops gs b1 in
      let (b2, (dwelt, h3)) = bind-done_inv (check_dwell spun) _ c h2 in
      let b3 = convert_units ops b2 in
      let (_, h4) = bind-done_inv (check_tool_length b3) _ c h3 in
      let (system, (_, h5)) =
        bind-done_inv (select_coord_system ops settings_read_coord_data gs b3) _ c h4.1 in
      let (selected, (acted, h6)) =
        bind-done_inv (non_modal_actions ops settings_read_coord_data gs system b3) _ c h5 in
      let (b4, (moved, h7)) = bind-done_inv (check_motion ops _ gs selected.1) _ c h6 in
      let (b5, (used, last)) = bind-done_inv (check_unused_words ops jog b4) _ c h7 in
      let same : b5 ≡ c.block = ap (λ x. x.block) (done_inj last) in
      let (kept, motion) = check_unused_words-KeepsHome ops jog b4 b5 used in
      let still5 : moves ops b5 ≡ false = subst (λ x. moves ops x ≡ false) (sym same) still in
      let goes5 : goes_home ops b5 ≡ true = subst (λ x. goes_home ops x ≡ true) (sym same) goes in
      let kept4 = check_motion-KeepsHome ops _ gs selected.1 b4 moved (sym motion ∙ still5) in
      let goes4 =
        sym (KeepsHome-goes selected.1 b4 kept4) ∙ (sym (KeepsHome-goes b4 b5 kept) ∙ goes5) in
      let home =
        non_modal_actions-Homeward ops settings_read_coord_data gs system b3 selected acted goes4 in
      let start : b3.values.ijk ≡ b.values.ijk =
        convert_units-ijk ops b2
        ∙ (check_dwell-ijk ops spun b2 dwelt
            ∙ (set_spindle_speed-ijk ops gs b1
                ∙ (set_feed_rate-ijk ops jog gs b0 b1 fed ∙ imply_motion-ijk ops b))) in
      subst (Homeward ops settings_read_coord_data b.values.ijk gs.position) same (
        Homeward-kept b.values.ijk gs.position b4 b5 kept (
          Homeward-kept b.values.ijk gs.position selected.1 b4 kept4 (
            subst (λ x. Homeward ops settings_read_coord_data x gs.position selected.1) start
              home)))

  position_after-moves :
      (b : GcodeBlock floats.Float) (old : Vec floats.Float)
      → moves ops b ≡ true
      → position_after ops b old ≡ b.values.xyz
  unfolding position_after
  position_after-moves b old m = rw (m) refl

  position_after-goes :
      (b : GcodeBlock floats.Float) (old : Vec floats.Float)
      → moves ops b ≡ false
      → goes_home ops b ≡ true
      → position_after ops b old ≡ b.values.ijk
  unfolding position_after
  position_after-goes b old m g = rw (m, g) refl

  position_after-stays :
      (b : GcodeBlock floats.Float) (old : Vec floats.Float)
      → moves ops b ≡ false
      → goes_home ops b ≡ false
      → position_after ops b old ≡ old
  unfolding position_after
  position_after-stays b old m g = rw (m, g) refl

  -- The position `new` after the block `b`, from the position `old` and with the values `before` of
  -- its words I, J and K: the target of its motion; else, for G28 and G30, the way home; else `old`.
  abbrev pub Arrives :
      Vec floats.Float → Vec floats.Float → GcodeBlock floats.Float → Vec floats.Float → Type 0
  Arrives before old b new =
      ((moves ops b ≡ true) × (new ≡ b.values.xyz))
      ⊎ ((moves ops b ≡ false)
          × (goes_home ops b ≡ true)
          × (home : Vec floats.Float) × ((settings_read_coord_data
                  (home_index ops settings_read_coord_data b) before
                ≡ some home)
              × (new ≡ way_home ops settings_read_coord_data b.axis_words home old)))
      ⊎ ((moves ops b ≡ false) × (goes_home ops b ≡ false) × (new ≡ old))

  -- For a block that STEP 3 accepts, that is not a jog and does not probe, whatever it returns: the
  -- position of the parser afterwards is the target of its motion; else, for G28 and G30, what
  -- settings_read_coord_data has put at the values I, J and K of the block for their index, where with
  -- axis words only the named axes go there and the others stay; else the position before.
  pub execute_block-Arrives :
      (io : Surroundings floats.Float) (b : GcodeBlock floats.Float) (c : Checked floats.Float)
      (r : Run floats.Float)
      → check_block ops settings_read_coord_data false r.gs b ≡ done c
      → probes ops c.block ≡ false
      → Arrives b.values.ijk r.gs.position c.block
          (execute_block ops settings_read_coord_data io c r).1.gs.position
  execute_block-Arrives io b c r checked still =
      let e = execute_block-position ops settings_read_coord_data io c r still in
      let old = r.gs.position in
      elim (Bool-cases (moves ops c.block)) [
        | inl m ↦ inl (m, e ∙ position_after-moves c.block old m)
        | inr m ↦ elim (Bool-cases (goes_home ops c.block)) [
          | inl g ↦
              let (home, (read, way)) = check_block-Homeward false r.gs b c checked m g in
              inr (inl (m, g, home, (read, e ∙ (position_after-goes c.block old m g ∙ way))))
          | inr g ↦ inr (inr (m, g, e ∙ position_after-stays c.block old m g))
        ]
      ]
