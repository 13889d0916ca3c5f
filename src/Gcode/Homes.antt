-- ===== src/Gcode/Homes.antt =====
-- Where G28 and G30 lead (gcode.c, lines 613 to 626), through the rest of STEP 3.
use zephyr_grbl.Prelude.{
  ◌==◌, if◌then◌else◌, Option-cases, if_split, set, ℕ, ◌≡◌, refl, sym, ap, ◌≢◌, inl, inr, Bool,
  true, false, not, Option, some, arith,
}
use mathlib.Core.Path.{subst}
use zephyr_grbl.Flags.{Byte, is_nonzero}
use zephyr_grbl.Gcode.Codes.{
  non_modal_set_coordinate_data, non_modal_set_coordinate_offset, motion_mode_seek,
  motion_mode_linear, motion_mode_none, word_r,
}
use zephyr_grbl.Gcode.Defs.{
  Arithmetic, Vec, at, each, Parser, GcodeBlock, Result, axis_command_motion_mode, no_axis_words,
  no_axis_words_in_plane, done,
}
use zephyr_grbl.Gcode.Checks.{Plane, has_axis}
use zephyr_grbl.Gcode.NonModal.{
  read_coord_data, set_coordinate_data, set_coordinate_offset, set_target, home_index, go_home,
  check_other_non_modal, non_modal_actions,
}
use zephyr_grbl.Gcode.MotionModes.{
  is_arc, is_probe, arc_centre, arc_radius_mode, convert_offsets, arc_offset_mode, check_arc,
  check_probe, check_line, check_motion, use_common_words, use_axis_words, check_unused_words,
}
use zephyr_grbl.Gcode.Checking.{}
use zephyr_grbl.Gcode.Results.{bind-done_inv, require-done_inv, done_inj}
use zephyr_grbl.Gcode.CheckedModes.{check_arc-modal}
use zephyr_grbl.Gcode.Positions.{goes_home, moves}

module _ (ops : Arithmetic) where
  open ops use {floats}

  -- The same way home.
  unfoldable pub KeepsHome : GcodeBlock floats.Float → GcodeBlock floats.Float → Type 0
  KeepsHome b c =
      (c.values.ijk ≡ b.values.ijk)
      × (c.axis_words ≡ b.axis_words)
      × (c.non_modal_command ≡ b.non_modal_command)

  arc_radius_mode-command :
      (plane : Plane) (gs : Parser floats.Float) (x y : floats.Float) (b : GcodeBlock floats.Float)
      (c : GcodeBlock floats.Float)
      → arc_radius_mode ops plane gs x y b ≡ done c
      → c.axis_command ≡ b.axis_command
  unfolding arc_radius_mode arc_centre
  arc_radius_mode-command plane gs x y b c h = ground arith

  arc_offset_mode-command :
      (plane : Plane) (x y : floats.Float) (b : GcodeBlock floats.Float)
      (c : GcodeBlock floats.Float)
      → arc_offset_mode ops plane x y b ≡ done c
      → c.axis_command ≡ b.axis_command
  unfolding arc_offset_mode convert_offsets
  arc_offset_mode-command plane x y b c h = ground arith

  check_arc-command :
      (plane : Plane) (gs : Parser floats.Float) (b : GcodeBlock floats.Float)
      (c : GcodeBlock floats.Float)
      → check_arc ops plane gs b ≡ done c
      → c.axis_command ≡ b.axis_command
  unfolding check_arc
  check_arc-command plane gs b c h =
      let (_, worded) = require-done_inv _ no_axis_words _ c h in
      let (_, checked) = require-done_inv _ no_axis_words_in_plane _ c worded in
      if_split
        (λ (x : Result (GcodeBlock floats.Float)). x ≡ done c → c.axis_command ≡ b.axis_command)
        (b.value_words word_r) (λ _ h1. arc_radius_mode-command plane gs _ _ b c h1)
        (λ _ h1. arc_offset_mode-command plane _ _ b c h1) checked

  check_probe-same :
      (gs : Parser floats.Float) (b : GcodeBlock floats.Float) (c : GcodeBlock floats.Float)
      → check_probe ops gs b ≡ done c
      → b ≡ c
  unfolding check_probe
  check_probe-same gs b c h = ground arith

  arc_moves :
      (plane : Plane) (gs : Parser floats.Float) (b : GcodeBlock floats.Float)
      (c : GcodeBlock floats.Float)
      → check_arc ops plane gs b ≡ done c
      → not (b.axis_command == axis_command_motion_mode) ≡ false
      → is_arc b.modal.motion ≡ true
      → moves ops c ≢ false
  arc_moves plane gs b c h commanded arc still =
      let command = check_arc-command plane gs b c h in
      let modal = check_arc-modal ops plane gs b c h in
      let motion : c.modal.motion ≡ b.modal.motion = ap (λ m. m.motion) modal in
      ground (arith, command, motion)

  pub check_motion-KeepsHome :
      (plane : Plane) (gs : Parser floats.Float) (b : GcodeBlock floats.Float)
      (c : GcodeBlock floats.Float)
      → check_motion ops plane gs b ≡ done c
      → moves ops c ≡ false
      → KeepsHome b c
  unfolding check_motion check_line KeepsHome
  check_motion-KeepsHome plane gs b c =
      let Goal = λ (x : Result (GcodeBlock floats.Float)).
        x ≡ done c → moves ops c ≡ false → KeepsHome b c in
      if_split Goal (b.modal.motion == motion_mode_none) (λ _ h s. ground arith)
        (λ _.
          if_split Goal (not (b.axis_command == axis_command_motion_mode)) (λ _ h s. ground arith)
            (λ commanded.
              if_split Goal (b.modal.motion == motion_mode_seek) (λ _ h s. ground arith)
                (λ _.
                  if_split Goal (ops.equal b.values.f ops.zero_value) (λ _ h s. ground arith)
                    (λ _.
                      if_split Goal (b.modal.motion == motion_mode_linear) (λ _ h s. ground arith)
                        (λ _.
                          if_split Goal (is_arc b.modal.motion)
                            (λ arc h s. absurd (arc_moves plane gs b c h commanded arc s))
                            (λ _.
                              if_split Goal (is_probe b.modal.motion)
                                (λ _ h s.
                                  subst (KeepsHome b) (check_probe-same gs b c h)
                                    (refl, refl, refl))
                                (λ _ h s. ground arith)))))))

  pub check_unused_words-KeepsHome :
      (jog : Bool) (b : GcodeBlock floats.Float) (c : GcodeBlock floats.Float)
      → check_unused_words ops jog b ≡ done c
      → KeepsHome b c × (moves ops c ≡ moves ops b)
  unfolding check_unused_words use_common_words use_axis_words KeepsHome
  check_unused_words-KeepsHome jog b c h = ground arith

module _ (ops : Arithmetic)
    (settings_read_coord_data : ℕ → Vec ops.floats.Float → Option (Vec ops.floats.Float)) where
  open ops use {floats}

  -- From `old` to `home`: all axes, or the named ones if there are axis words.
  abbrev pub way_home : Byte → Vec floats.Float → Vec floats.Float → Vec floats.Float
  way_home axis_words home old =
      if is_nonzero axis_words
      then each (λ i. if has_axis axis_words i then at home i else at old i)
      else home

  -- The values ijk of `b` are the way home from `old`, to the coordinates that are read for G28 or
  -- G30 into the values `before`.
  abbrev pub Homeward : Vec floats.Float → Vec floats.Float → GcodeBlock floats.Float → Type 0
  Homeward before old b =
      (home : Vec floats.Float) × ((settings_read_coord_data
            (home_index ops settings_read_coord_data b) before
          ≡ some home)
        × (b.values.ijk ≡ way_home b.axis_words home old))

  read_coord_data-some :
      (i : ℕ) (before home : Vec floats.Float)
      → read_coord_data ops settings_read_coord_data i before ≡ done home
      → settings_read_coord_data i before ≡ some home
  read_coord_data-some i before home h = elim (Option-cases (settings_read_coord_data i before)) [
    | inl e ↦ ground (arith, e, h)
    | inr (v, e) ↦ ground (arith, e, h)
  ]

  go_home-Homeward :
      (gs : Parser floats.Float) (b c : GcodeBlock floats.Float)
      → go_home ops settings_read_coord_data gs b ≡ done c
      → Homeward b.values.ijk gs.position c
  unfolding go_home
  go_home-Homeward gs b c h =
      let (home, (read, h1)) =
        bind-done_inv
          (read_coord_data ops settings_read_coord_data (home_index ops settings_read_coord_data b)
            b.values.ijk)
          _ c h in
      let same : c.non_modal_command ≡ b.non_modal_command = ground arith in
      (home, (rw (same) (read_coord_data-some _ _ home read), ground arith))

  set_target-ijk :
      (gs : Parser floats.Float) (system : Vec floats.Float) (b : GcodeBlock floats.Float)
      → ((set_target ops settings_read_coord_data gs system b).values.ijk ≡ b.values.ijk)
        × ((set_target ops settings_read_coord_data gs system b).non_modal_command
            ≡ b.non_modal_command)
  unfolding set_target
  set_target-ijk gs system b = ground arith

  check_other-Homeward :
      (gs : Parser floats.Float) (b c : GcodeBlock floats.Float)
      → check_other_non_modal ops settings_read_coord_data gs b ≡ done c
      → goes_home ops c ≡ true
      → Homeward b.values.ijk gs.position c
  unfolding check_other_non_modal
  check_other-Homeward gs b c =
      let Goal = λ (x : Result (GcodeBlock floats.Float)).
        x ≡ done c → goes_home ops c ≡ true → Homeward b.values.ijk gs.position c in
      if_split Goal (goes_home ops b) (λ _ h g. go_home-Homeward gs b c h)
        (λ e h g. absurd (ground (arith, e, h, g)))

  set_coordinate_data-away :
      (gs : Parser floats.Float) (b : GcodeBlock floats.Float) (c : ℕ × GcodeBlock floats.Float)
      → set_coordinate_data ops settings_read_coord_data gs b ≡ done c
      → c.1.non_modal_command ≡ b.non_modal_command
  unfolding set_coordinate_data
  set_coordinate_data-away gs b c h = ground arith

  set_coordinate_offset-away :
      (gs : Parser floats.Float) (system : Vec floats.Float) (b c : GcodeBlock floats.Float)
      → set_coordinate_offset ops settings_read_coord_data gs system b ≡ done c
      → c.non_modal_command ≡ b.non_modal_command
  unfolding set_coordinate_offset
  set_coordinate_offset-away gs system b c h = ground arith

  pub non_modal_actions-Homeward :
      (gs : Parser floats.Float) (system : Vec floats.Float) (b : GcodeBlock floats.Float)
      (c : ℕ × GcodeBlock floats.Float)
      → non_modal_actions ops settings_read_coord_data gs system b ≡ done c
      → goes_home ops c.1 ≡ true
      → Homeward b.values.ijk gs.position c.1
  unfolding non_modal_actions
  non_modal_actions-Homeward gs system b c =
      let Goal = λ (x : Result (ℕ × GcodeBlock floats.Float)).
        x ≡ done c → goes_home ops c.1 ≡ true → Homeward b.values.ijk gs.position c.1 in
      let data1 = set_target ops settings_read_coord_data gs system b in
      if_split Goal (b.non_modal_command == non_modal_set_coordinate_data)
        (λ e h g.
          let same = set_coordinate_data-away gs b c h in absurd (ground (arith, e, same, g)))
        (λ _.
          if_split Goal (b.non_modal_command == non_modal_set_coordinate_offset)
            (λ e h g.
              let (c1, (set, last)) = bind-done_inv _ _ c h in
              let same = set_coordinate_offset-away gs system b c1 set in
              let same1 = ap (λ x. x.1.non_modal_command) (done_inj last) in
              absurd (ground (arith, e, same, same1, g)))
            (λ _ h g.
              let (c1, (set, last)) = bind-done_inv _ _ c h in
              let same : c1 ≡ c.1 = ap (λ x. x.1) (done_inj last) in
              let home : Homeward data1.values.ijk gs.position c1 =
                check_other-Homeward gs data1 c1 set
                  (subst (λ x. goes_home ops x ≡ true) (sym same) g) in
              subst (Homeward b.values.ijk gs.position) same
                (subst (λ x. Homeward x gs.position c1) (set_target-ijk gs system b).0 home)))
