-- ===== src/Gcode/MotionModes.antt =====
-- STEP 3 of gc_execute_line (gcode.c, lines 646 to 836): the motion modes, and the words that are
-- left over.
use zephyr_grbl.Prelude.{◌==◌, if◌then◌else◌, ℕ, Bool, not, ◌&&◌, ◌||◌, List, [], ◌∷◌}
use zephyr_grbl.Flags.{is_nonzero}
use zephyr_grbl.Gcode.Bits.{Bits, clear_bit, any_bit}
use zephyr_grbl.Gcode.Codes.{
  motion_mode_seek, motion_mode_linear, motion_mode_cw_arc, motion_mode_ccw_arc,
  motion_mode_probe_toward, motion_mode_probe_toward_no_error, motion_mode_probe_away,
  motion_mode_probe_away_no_error, motion_mode_none, units_mode_inches, word_f, word_i, word_j,
  word_k, word_n, word_r, word_s, word_t, word_x, word_y, word_z,
}
use zephyr_grbl.Gcode.Defs.{
  Arithmetic, Vec, at, put, each, Parser, GcodeBlock, Result, ◌>>=◌, ◌>>◌, require,
  axis_command_none, axis_command_motion_mode, undefined_feed_rate, no_axis_words, axis_words_exist,
  no_axis_words_in_plane, invalid_target, arc_radius_error, no_offsets_in_plane, unused_words, done,
  fail,
}
use zephyr_grbl.Gcode.Checks.{Plane, has_axis, with_values, with_axis_command, drop_word}

-- MOTION_MODE_CW_ARC and MOTION_MODE_CCW_ARC
abbrev pub is_arc : ℕ → Bool
is_arc motion = motion == motion_mode_cw_arc || motion == motion_mode_ccw_arc

-- The cases of the switch for G38.x.
abbrev pub is_probe : ℕ → Bool
is_probe motion =
    motion == motion_mode_probe_toward
    || (motion == motion_mode_probe_toward_no_error
        || (motion == motion_mode_probe_away || motion == motion_mode_probe_away_no_error))

abbrev pub drop_words : List ℕ → Bits → Bits
drop_words [] words = words
drop_words (w ∷ ws) words = drop_words ws (clear_bit w words)

module _ (ops : Arithmetic) where
  open ops use {
    floats, add, subtract, multiply, divide, sqrt, fabs, less, equal, identical, zero_value,
    mm_per_inch, four, half, five_thousandths, thousandth,
  }

  abbrev Number : Type 0
  Number = floats.Float

  abbrev opposite : Number → Number
  opposite a = subtract zero_value a

  -- hypot_f (nuts_bolts.c)
  unfoldable pub hypot_f : Number → Number → Number
  hypot_f x y = sqrt (add (multiply x x) (multiply y y))

  -- isequal_position_vector (nuts_bolts.h)
  unfoldable pub isequal_position_vector : Vec Number → Vec Number → Bool
  isequal_position_vector a b = identical a.x b.x && (identical a.y b.y && identical a.z b.z)

  -- Lines 746 to 780: the centre of the arc of radius r over the vector (x, y), and the radius.
  unfoldable pub arc_centre : ℕ → Number → Number → Number → Result ((Number × Number) × Number)
  arc_centre motion r x y =
      let square : Number =
        subtract (subtract (multiply (multiply four r) r) (multiply x x)) (multiply y y) in
      let h : Number = divide (opposite (sqrt square)) (hypot_f x y) in
      let turned : Number = if motion == motion_mode_ccw_arc then opposite h else h in
      let side : Number = if less r zero_value then opposite turned else turned in
      if less square zero_value
      then fail arc_radius_error
      else done (
        (multiply half (subtract x (multiply y side)), multiply half (add y (multiply x side))),
        if less r zero_value then opposite r else r,
      )

  -- Lines 690 to 780: arc radius mode.
  unfoldable pub arc_radius_mode :
      Plane → Parser Number → Number → Number → GcodeBlock Number → Result (GcodeBlock Number)
  arc_radius_mode plane gs x y b = do
    require (not (isequal_position_vector gs.position b.values.xyz)) invalid_target
    let r =
        if b.modal.units == units_mode_inches then multiply b.values.r mm_per_inch else b.values.r
    centre ← arc_centre b.modal.motion r x y
    done (
        with_values
          (λ v. record v {
            r = centre.1;
            ijk = put (put v.ijk plane.axis_0 centre.0.0) plane.axis_1 centre.0.1;
          })
          (drop_word word_r b))

  -- Lines 784 to 791: the offsets in millimetres, their words used.
  unfoldable pub convert_offsets : GcodeBlock Number → GcodeBlock Number
  convert_offsets b =
      let used : GcodeBlock Number = record b {
        value_words = drop_words (word_i ∷ word_j ∷ word_k ∷ []) b.value_words;
      } in
      if b.modal.units == units_mode_inches
      then with_values
          (λ v. record v {
            ijk = each (λ i.
                if has_axis b.ijk_words i then multiply (at v.ijk i) mm_per_inch else at v.ijk i);
          })
          used
      else used

  -- Lines 802 to 806: the radii at the start and at the target may differ by 0.005 mm, or by 0.1 %
  -- of the radius up to 0.5 mm.
  unfoldable pub radii_agree : Number → Number → Bool
  radii_agree r target_r =
      let delta_r : Number = fabs (subtract target_r r) in
      not (less five_thousandths delta_r)
      || (not (less half delta_r) && not (less (multiply thousandth r) delta_r))

  -- Lines 783 to 807: arc offset mode.
  unfoldable pub arc_offset_mode :
      Plane → Number → Number → GcodeBlock Number → Result (GcodeBlock Number)
  arc_offset_mode plane x y b = do
    require (has_axis b.ijk_words plane.axis_0 || has_axis b.ijk_words plane.axis_1)
        no_offsets_in_plane
    let c = convert_offsets b
    let i = at c.values.ijk plane.axis_0
    let j = at c.values.ijk plane.axis_1
    let r = hypot_f i j
    require (radii_agree r (hypot_f (subtract x i) (subtract y j))) invalid_target
    done (with_values (λ v. record v { r = r }) c)

  -- Lines 672 to 808: G2 and G3.
  unfoldable pub check_arc : Plane → Parser Number → GcodeBlock Number → Result (GcodeBlock Number)
  check_arc plane gs b = do
    require (is_nonzero b.axis_words) no_axis_words
    require (has_axis b.axis_words plane.axis_0 || has_axis b.axis_words plane.axis_1)
        no_axis_words_in_plane
    let x = subtract (at b.values.xyz plane.axis_0) (at gs.position plane.axis_0)
    let y = subtract (at b.values.xyz plane.axis_1) (at gs.position plane.axis_1)
    (if b.value_words word_r then arc_radius_mode plane gs x y b else arc_offset_mode plane x y b)

  -- Lines 809 to 820: G38.x.
  unfoldable pub check_probe : Parser Number → GcodeBlock Number → Result (GcodeBlock Number)
  check_probe gs b = do
    require (is_nonzero b.axis_words) no_axis_words
    require (not (isequal_position_vector gs.position b.values.xyz)) invalid_target
    done b

  -- G0 and G1 without axis words are not executed: lines 658 and 670.
  unfoldable pub check_line : GcodeBlock Number → GcodeBlock Number
  check_line b = if is_nonzero b.axis_words then b else with_axis_command axis_command_none b

  -- Lines 645 to 823: [20. Motion modes ].
  unfoldable pub check_motion :
      Plane → Parser Number → GcodeBlock Number → Result (GcodeBlock Number)
  check_motion plane gs b =
      if b.modal.motion == motion_mode_none
      then (if is_nonzero b.axis_words then fail axis_words_exist else done b)
      else if not (b.axis_command == axis_command_motion_mode)
      then done b
      else if b.modal.motion == motion_mode_seek
      then done (check_line b)
      else if equal b.values.f zero_value
      then fail undefined_feed_rate
      else if b.modal.motion == motion_mode_linear
      then done (check_line b)
      else if is_arc b.modal.motion
      then check_arc plane gs b
      else if is_probe b.modal.motion
      then check_probe gs b
      else done b

  -- The words that are read whatever the block does: lines 829 to 834.
  unfoldable pub use_common_words : Bool → GcodeBlock Number → GcodeBlock Number
  use_common_words jog b = record b {
    value_words =
        drop_words (if jog then word_n ∷ word_f ∷ [] else word_n ∷ word_f ∷ word_s ∷ word_t ∷ [])
          b.value_words;
  }

  -- Line 835.
  unfoldable pub use_axis_words : GcodeBlock Number → GcodeBlock Number
  use_axis_words b =
      if b.axis_command == axis_command_none
      then b
      else record b { value_words = drop_words (word_x ∷ word_y ∷ word_z ∷ []) b.value_words }

  -- Lines 827 to 836: each value word must have been used.
  unfoldable pub check_unused_words : Bool → GcodeBlock Number → Result (GcodeBlock Number)
  check_unused_words jog b =
      let used : GcodeBlock Number = use_axis_words (use_common_words jog b) in
      if any_bit used.value_words then fail unused_words else done used
