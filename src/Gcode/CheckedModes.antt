-- ===== src/Gcode/CheckedModes.antt =====
-- The checks of STEP 3 leave the modes of a block as its words set them (gcode.c, lines 365 to 836).
use zephyr_grbl.Prelude.{◌==◌, if_split, set, ℕ, ◌≡◌, sym, ap, ◌∙◌, Bool, not, ◌||◌, Option, arith}
use zephyr_grbl.Gcode.Codes.{
  non_modal_set_coordinate_data, non_modal_go_home_0, non_modal_go_home_1,
  non_modal_set_coordinate_offset, motion_mode_seek, motion_mode_linear, motion_mode_none, word_r,
}
use zephyr_grbl.Gcode.Defs.{
  Arithmetic, Vec, Parser, GcodeBlock, Result, axis_command_motion_mode, no_axis_words,
  no_axis_words_in_plane, done,
}
use zephyr_grbl.Gcode.Checks.{
  Plane, imply_motion, check_line_number, check_dwell, check_tool_length, set_feed_rate,
  set_spindle_speed, convert_units,
}
use zephyr_grbl.Gcode.NonModal.{
  select_coord_system, set_coordinate_data, set_coordinate_offset, set_target, go_home,
  check_other_non_modal, non_modal_actions,
}
use zephyr_grbl.Gcode.MotionModes.{
  is_arc, is_probe, arc_centre, arc_radius_mode, convert_offsets, arc_offset_mode, check_arc,
  check_probe, check_line, check_motion, use_common_words, use_axis_words, check_unused_words,
}
use zephyr_grbl.Gcode.Checking.{Checked, check_block}
use zephyr_grbl.Gcode.Results.{bind-done_inv, require-done_inv, done_inj}

module _ (ops : Arithmetic) where
  open ops use {floats}

  imply_motion-modal : (b : GcodeBlock floats.Float) → (imply_motion b).modal ≡ b.modal
  unfolding imply_motion
  imply_motion-modal b = ground arith

  set_feed_rate-modal :
      (jog : Bool) (gs : Parser floats.Float) (b : GcodeBlock floats.Float)
      (c : GcodeBlock floats.Float)
      → set_feed_rate ops jog gs b ≡ done c
      → c.modal ≡ b.modal
  unfolding set_feed_rate
  set_feed_rate-modal jog gs b c h = ground arith

  check_dwell-modal :
      (b : GcodeBlock floats.Float) (c : GcodeBlock floats.Float)
      → check_dwell b ≡ done c
      → c.modal ≡ b.modal
  unfolding check_dwell
  check_dwell-modal b c h = ground arith

  set_spindle_speed-modal :
      (gs : Parser floats.Float) (b : GcodeBlock floats.Float)
      → (set_spindle_speed ops gs b).modal ≡ b.modal
  unfolding set_spindle_speed
  set_spindle_speed-modal gs b = ground arith

  convert_units-modal : (b : GcodeBlock floats.Float) → (convert_units ops b).modal ≡ b.modal
  unfolding convert_units
  convert_units-modal b = ground arith

  arc_radius_mode-modal :
      (plane : Plane) (gs : Parser floats.Float) (x y : floats.Float) (b : GcodeBlock floats.Float)
      (c : GcodeBlock floats.Float)
      → arc_radius_mode ops plane gs x y b ≡ done c
      → c.modal ≡ b.modal
  unfolding arc_radius_mode arc_centre
  arc_radius_mode-modal plane gs x y b c h = ground arith

  arc_offset_mode-modal :
      (plane : Plane) (x y : floats.Float) (b : GcodeBlock floats.Float)
      (c : GcodeBlock floats.Float)
      → arc_offset_mode ops plane x y b ≡ done c
      → c.modal ≡ b.modal
  unfolding arc_offset_mode convert_offsets
  arc_offset_mode-modal plane x y b c h = ground arith

  pub check_arc-modal :
      (plane : Plane) (gs : Parser floats.Float) (b : GcodeBlock floats.Float)
      (c : GcodeBlock floats.Float)
      → check_arc ops plane gs b ≡ done c
      → c.modal ≡ b.modal
  unfolding check_arc
  check_arc-modal plane gs b c h =
      let (_, worded) = require-done_inv _ no_axis_words _ c h in
      let (_, checked) = require-done_inv _ no_axis_words_in_plane _ c worded in
      if_split (λ (x : Result (GcodeBlock floats.Float)). x ≡ done c → c.modal ≡ b.modal)
        (b.value_words word_r) (λ _ h1. arc_radius_mode-modal plane gs _ _ b c h1)
        (λ _ h1. arc_offset_mode-modal plane _ _ b c h1) checked

  check_probe-modal :
      (gs : Parser floats.Float) (b : GcodeBlock floats.Float) (c : GcodeBlock floats.Float)
      → check_probe ops gs b ≡ done c
      → c.modal ≡ b.modal
  unfolding check_probe
  check_probe-modal gs b c h = ground arith

  check_motion-modal :
      (plane : Plane) (gs : Parser floats.Float) (b : GcodeBlock floats.Float)
      (c : GcodeBlock floats.Float)
      → check_motion ops plane gs b ≡ done c
      → c.modal ≡ b.modal
  unfolding check_motion check_line
  check_motion-modal plane gs b c =
      let Goal = λ (x : Result (GcodeBlock floats.Float)). x ≡ done c → c.modal ≡ b.modal in
      if_split Goal (b.modal.motion == motion_mode_none) (λ _ h. ground arith)
        (λ _.
          if_split Goal (not (b.axis_command == axis_command_motion_mode)) (λ _ h. ground arith)
            (λ _.
              if_split Goal (b.modal.motion == motion_mode_seek) (λ _ h. ground arith)
                (λ _.
                  if_split Goal (ops.equal b.values.f ops.zero_value) (λ _ h. ground arith)
                    (λ _.
                      if_split Goal (b.modal.motion == motion_mode_linear) (λ _ h. ground arith)
                        (λ _.
                          if_split Goal (is_arc b.modal.motion)
                            (λ _ h. check_arc-modal plane gs b c h)
                            (λ _.
                              if_split Goal (is_probe b.modal.motion)
                                (λ _ h. check_probe-modal gs b c h)
                                (λ _ h. sym (ap (λ x. x.modal) (done_inj h)))))))))

  check_unused_words-modal :
      (jog : Bool) (b : GcodeBlock floats.Float) (c : GcodeBlock floats.Float)
      → check_unused_words ops jog b ≡ done c
      → c.modal ≡ b.modal
  unfolding check_unused_words use_common_words use_axis_words
  check_unused_words-modal jog b c h = ground arith

module _ (ops : Arithmetic)
    (settings_read_coord_data : ℕ → Vec ops.floats.Float → Option (Vec ops.floats.Float)) where
  open ops use {floats}

  set_coordinate_data-modal :
      (gs : Parser floats.Float) (b : GcodeBlock floats.Float) (c : ℕ × GcodeBlock floats.Float)
      → set_coordinate_data ops settings_read_coord_data gs b ≡ done c
      → c.1.modal ≡ b.modal
  unfolding set_coordinate_data
  set_coordinate_data-modal gs b c h = ground arith

  set_coordinate_offset-modal :
      (gs : Parser floats.Float) (system : Vec floats.Float) (b : GcodeBlock floats.Float)
      (c : GcodeBlock floats.Float)
      → set_coordinate_offset ops settings_read_coord_data gs system b ≡ done c
      → c.modal ≡ b.modal
  unfolding set_coordinate_offset
  set_coordinate_offset-modal gs system b c h = ground arith

  go_home-modal :
      (gs : Parser floats.Float) (b : GcodeBlock floats.Float) (c : GcodeBlock floats.Float)
      → go_home ops settings_read_coord_data gs b ≡ done c
      → c.modal ≡ b.modal
  unfolding go_home
  go_home-modal gs b c h = ground arith

  set_target-modal :
      (gs : Parser floats.Float) (system : Vec floats.Float) (b : GcodeBlock floats.Float)
      → (set_target ops settings_read_coord_data gs system b).modal ≡ b.modal
  unfolding set_target
  set_target-modal gs system b = ground arith

  check_other_non_modal-modal :
      (gs : Parser floats.Float) (b : GcodeBlock floats.Float) (c : GcodeBlock floats.Float)
      → check_other_non_modal ops settings_read_coord_data gs b ≡ done c
      → c.modal ≡ b.modal
  unfolding check_other_non_modal
  check_other_non_modal-modal gs b c =
      let Goal = λ (x : Result (GcodeBlock floats.Float)). x ≡ done c → c.modal ≡ b.modal in
      if_split Goal
        (b.non_modal_command == non_modal_go_home_0 || b.non_modal_command == non_modal_go_home_1)
        (λ _ h. go_home-modal gs b c h) (λ _ h. ground arith)

  non_modal_actions-modal :
      (gs : Parser floats.Float) (system : Vec floats.Float) (b : GcodeBlock floats.Float)
      (c : ℕ × GcodeBlock floats.Float)
      → non_modal_actions ops settings_read_coord_data gs system b ≡ done c
      → c.1.modal ≡ b.modal
  unfolding non_modal_actions
  non_modal_actions-modal gs system b c =
      let Goal = λ (x : Result (ℕ × GcodeBlock floats.Float)). x ≡ done c → c.1.modal ≡ b.modal in
      let data1 = set_target ops settings_read_coord_data gs system b in
      if_split Goal (b.non_modal_command == non_modal_set_coordinate_data)
        (λ _ h. set_coordinate_data-modal gs b c h)
        (λ _.
          if_split Goal (b.non_modal_command == non_modal_set_coordinate_offset)
            (λ _ h.
              let (c1, (set, same)) = bind-done_inv _ _ c h in
              sym (ap (λ x. x.1.modal) (done_inj same))
              ∙ set_coordinate_offset-modal gs system b c1 set)
            (λ _ h.
              let (c1, (set, same)) = bind-done_inv _ _ c h in
              sym (ap (λ x. x.1.modal) (done_inj same))
              ∙ (check_other_non_modal-modal gs data1 c1 set ∙ set_target-modal gs system b)))

  -- An accepted block has the modes that its words set.
  pub check_block-modal :
      (jog : Bool) (gs : Parser floats.Float) (b : GcodeBlock floats.Float)
      (c : Checked floats.Float)
      → check_block ops settings_read_coord_data jog gs b ≡ done c
      → c.block.modal ≡ b.modal
  unfolding check_block
  check_block-modal jog gs b c h =
      let b0 = imply_motion b in
      let (_, h1) = bind-done_inv (check_line_number b0) _ c h in
      let (b1, (fed, h2)) = bind-done_inv (set_feed_rate ops jog gs b0) _ c h1.1 in
      let spun = set_spindle_speed ops gs b1 in
      let (b2, (dwelt, h3)) = bind-done_inv (check_dwell spun) _ c h2 in
      let b3 = convert_units ops b2 in
      let (_, h4) = bind-done_inv (check_tool_length b3) _ c h3 in
      let (system, (_, h5)) =
        bind-done_inv (select_coord_system ops settings_read_coord_data gs b3) _ c h4.1 in
      let (selected, (acted, h6)) =
        bind-done_inv (non_modal_actions ops settings_read_coord_data gs system b3) _ c h5 in
      let (b4, (moved, h7)) = bind-done_inv (check_motion ops _ gs selected.1) _ c h6 in
      let (b5, (used, last)) = bind-done_inv (check_unused_words ops jog b4) _ c h7 in
      sym (ap (λ x. x.block.modal) (done_inj last))
      ∙ (check_unused_words-modal ops jog b4 b5 used
          ∙ (check_motion-modal ops _ gs selected.1 b4 moved
              ∙ (non_modal_actions-modal gs system b3 selected acted
                  ∙ (convert_units-modal ops b2
                      ∙ (check_dwell-modal ops spun b2 dwelt
                          ∙ (set_spindle_speed-modal ops gs b1
                              ∙ (set_feed_rate-modal ops jog gs b0 b1 fed
                                  ∙ imply_motion-modal ops b)))))))
