-- ===== src/Gcode/NonModal.antt =====
-- STEP 3 of gc_execute_line (gcode.c, lines 501 to 643): the coordinate system of a block, and the
-- actions that are not modal. `gs` is gc_state, which is only read.
use zephyr_grbl.Prelude.{ltb, ◌==◌, if◌then◌else◌, ℕ, ◌+◌, ◌-◌, not, ◌&&◌, ◌||◌, Option, none, some}
use zephyr_grbl.Flags.{is_nonzero, value}
use zephyr_grbl.Gcode.Bits.{}
use zephyr_grbl.Gcode.Codes.{
  modal_group_g12, non_modal_set_coordinate_data, non_modal_go_home_0, non_modal_go_home_1,
  non_modal_absolute_override, non_modal_set_coordinate_offset, motion_mode_seek,
  motion_mode_linear, distance_mode_absolute, word_l, word_p, word_r, n_coordinate_system,
}
use zephyr_grbl.Gcode.Defs.{
  Arithmetic, Vec, at, each, Parser, GcodeBlock, Result, ◌>>=◌, ◌>>◌, require, axis_command_none,
  axis_command_tool_length_offset, setting_read_fail, unsupported_command, no_axis_words,
  value_word_missing, unsupported_coord_sys, g53_invalid_motion_mode, done, fail,
}
use zephyr_grbl.Gcode.Checks.{
  tool_length_offset_axis, has_axis, with_values, with_axis_command, drop_word,
}

abbrev pub setting_index_g28 : ℕ
setting_index_g28 = n_coordinate_system

abbrev pub setting_index_g30 : ℕ
setting_index_g30 = n_coordinate_system + 1

module _ (ops : Arithmetic)
    -- settings_read_coord_data, from the index and the coordinates that its argument holds: what
    -- the argument holds after a call that returns true, or none for a call that returns false,
    -- which writes zeros to the storage and to its argument
    (settings_read_coord_data : ℕ → Vec ops.floats.Float → Option (Vec ops.floats.Float)) where
  open ops use {floats, add, subtract, trunc_byte}

  abbrev pub read_coord_data : ℕ → Vec floats.Float → Result (Vec floats.Float)
  read_coord_data i old = elim (settings_read_coord_data i old) [
    | none ↦ fail setting_read_fail
    | some v ↦ done v
  ]

  -- Lines 504 to 511: block_coord_system.
  unfoldable pub select_coord_system :
      Parser floats.Float → GcodeBlock floats.Float → Result (Vec floats.Float)
  select_coord_system gs b =
      if b.command_words modal_group_g12
      then (if ltb n_coordinate_system b.modal.coord_select
          then fail unsupported_coord_sys
          else if gs.modal.coord_select == b.modal.coord_select
          then done gs.coord_system
          else read_coord_data b.modal.coord_select gs.coord_system)
      else done gs.coord_system

  -- A value at the position of an axis, less the offsets: lines 552 and 553, 570 and 571.
  unfoldable pub offset_from : Parser floats.Float → floats.Float → floats.Float → ℕ → floats.Float
  offset_from gs base value i =
      let d : floats.Float = subtract (subtract (at gs.position i) base) value in
      if i == tool_length_offset_axis then subtract d gs.tool_length_offset else d

  -- Lines 523 to 560: G10. The coordinate system to change, and the block with its new data in ijk.
  unfoldable pub set_coordinate_data :
      Parser floats.Float → GcodeBlock floats.Float → Result (ℕ × GcodeBlock floats.Float)
  set_coordinate_data gs b = do
    require (is_nonzero b.axis_words) no_axis_words
    require (b.value_words word_p || b.value_words word_l) value_word_missing
    require (not (ltb n_coordinate_system (trunc_byte b.values.p))) unsupported_coord_sys
    require (b.values.l == 20 || (b.values.l == 2 && not (b.value_words word_r)))
        unsupported_command
    let p = trunc_byte b.values.p
    let select = if ltb 0 p then p - 1 else b.modal.coord_select
    old ← read_coord_data select b.values.ijk
    done (
      select,
      with_values
          (λ v. record v {
            ijk = each (λ i.
                if has_axis b.axis_words i
                then (if v.l == 20
                    then offset_from gs (at gs.coord_offset i) (at v.xyz i) i
                    else at v.xyz i)
                else at old i);
          })
          (drop_word word_p (drop_word word_l b)),
    )

  -- Lines 561 to 576: G92.
  unfoldable pub set_coordinate_offset :
      Parser floats.Float
      → Vec floats.Float
      → GcodeBlock floats.Float
      → Result (GcodeBlock floats.Float)
  set_coordinate_offset gs coord_system b = do
    require (is_nonzero b.axis_words) no_axis_words
    done (
        with_values
          (λ v. record v {
            xyz = each (λ i.
                if has_axis b.axis_words i
                then offset_from gs (at coord_system i) (at v.xyz i) i
                else at gs.coord_offset i);
          })
          b)

  -- Lines 587 to 601: the target of an axis.
  unfoldable pub target_of :
      Parser floats.Float → Vec floats.Float → GcodeBlock floats.Float → ℕ → floats.Float
  target_of gs coord_system b i =
      let value : floats.Float = at b.values.xyz i in
      if not (has_axis b.axis_words i)
      then at gs.position i
      else if b.non_modal_command == non_modal_absolute_override
      then value
      else if b.modal.distance == distance_mode_absolute
      then (let offset : floats.Float =
            add value (add (at coord_system i) (at gs.coord_offset i)) in
          if i == tool_length_offset_axis then add offset gs.tool_length_offset else offset)
      else add value (at gs.position i)

  -- Lines 584 to 604.
  unfoldable pub set_target :
      Parser floats.Float → Vec floats.Float → GcodeBlock floats.Float → GcodeBlock floats.Float
  set_target gs coord_system b =
      if b.axis_command == axis_command_tool_length_offset || not (is_nonzero b.axis_words)
      then b
      else with_values (λ v. record v { xyz = each (target_of gs coord_system b) }) b

  -- SETTING_INDEX_G28 or SETTING_INDEX_G30
  abbrev pub home_index : GcodeBlock floats.Float → ℕ
  home_index b =
      if b.non_modal_command == non_modal_go_home_0 then setting_index_g28 else setting_index_g30

  -- Lines 613 to 626: G28 and G30.
  unfoldable pub go_home :
      Parser floats.Float → GcodeBlock floats.Float → Result (GcodeBlock floats.Float)
  go_home gs b = do
    home ← read_coord_data (home_index b) b.values.ijk
    done (
        if is_nonzero b.axis_words
        then with_values
            (λ v. record v {
              ijk = each (λ i. if has_axis b.axis_words i then at home i else at gs.position i);
            })
            b
        else with_axis_command axis_command_none (with_values (λ v. record v { ijk = home }) b))

  -- Lines 607 to 642.
  unfoldable pub check_other_non_modal :
      Parser floats.Float → GcodeBlock floats.Float → Result (GcodeBlock floats.Float)
  check_other_non_modal gs b =
      if b.non_modal_command == non_modal_go_home_0 || b.non_modal_command == non_modal_go_home_1
      then go_home gs b
      else if b.non_modal_command == non_modal_absolute_override
          && not (b.modal.motion == motion_mode_seek || b.modal.motion == motion_mode_linear)
      then fail g53_invalid_motion_mode
      else done b

  -- Lines 522 to 643: [19. Remaining non-modal actions ]. The coordinate system that G10 changes,
  -- else 0, and the block.
  unfoldable pub non_modal_actions :
      Parser floats.Float
      → Vec floats.Float
      → GcodeBlock floats.Float
      → Result (ℕ × GcodeBlock floats.Float)
  non_modal_actions gs coord_system b =
      if b.non_modal_command == non_modal_set_coordinate_data
      then set_coordinate_data gs b
      else if b.non_modal_command == non_modal_set_coordinate_offset
      then (set_coordinate_offset gs coord_system b >>= λ c. done (0, c))
      else (check_other_non_modal gs (set_target gs coord_system b) >>= λ c. done (0, c))
