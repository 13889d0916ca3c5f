-- ===== src/Settings/Defs.antt =====
-- settings_store_global_setting and settings_restore (settings.c).
use zephyr_grbl.Prelude.{
  ltb, leb, ◌==◌, if◌then◌else◌, set, ℕ, zero, suc, ◌-◌, Bool, true, false, ◌||◌, ◌∷◌,
}
use zephyr_grbl.Flags.{Byte, bit, bit_istrue, bit_isfalse, bit_true, bit_false}
use zephyr_grbl.Settings.Data.{
  ValueOps, Status, is_ok, Settings, Effect, Store, n_axis, axis_n_settings,
  axis_settings_start_val, axis_settings_increment, bitflag_report_inches, bitflag_invert_st_enable,
  bitflag_hard_limit_enable, bitflag_homing_enable, bitflag_soft_limit_enable,
  bitflag_invert_limit_pins, bitflag_invert_probe_pin, Setting, setting_of, ok, negative_value,
  invalid_statement, setting_step_pulse_min, soft_limit_error, setting_disabled_laser,
  step_dir_masks_changed, system_flag_wco_change, limits_init, spindle_init,
  probe_configure_invert_mask, write_global_settings, settings_write_coord_data, eeprom_put_char,
  pulse_time, idle_lock_time, step_invert, dir_invert, invert_st_enable, invert_limit_pins,
  invert_probe_pin, report_mask, junction, arc, report_inches, soft_limits, hard_limits,
  homing_cycle, homing_dir, feed_rate, seek_rate, debounce, pulloff, spindle_max, spindle_min,
  laser_mode, unknown,
}

module _ {F : Type 0} (ops : ValueOps F) where
  abbrev effect : Effect F → Store F → Store F
  effect e st = record st { effects = e ∷ st.effects }

  -- `flags |= mask` for a non-zero v, else `flags &= ~mask`
  abbrev pub set_flag : ℕ → Byte → Settings F → Settings F
  set_flag int_value mask s = record s {
    flags = if int_value == 0 then bit_false s.flags mask else bit_true s.flags mask;
  }

  -- Case `set_idx` of the axis settings.
  unfoldable pub set_axis : ℕ → ℕ → F → Settings F → Settings F
  set_axis set_idx axis v s =
      if set_idx == 0
      then record s { steps_per_mm = set s.steps_per_mm axis v }
      else if set_idx == 1
      then record s { max_rate = set s.max_rate axis v }
      else if set_idx == 2
      then record s { acceleration = set s.acceleration axis (ops.per_minute v) }
      else record s { max_travel = set s.max_travel axis (ops.negate v) }

  -- The while loop, on the number of settings that it has not tried yet.
  unfoldable pub axis_setting : ℕ → ℕ → ℕ → F → Store F → Status × Store F
  axis_setting zero set_idx parameter v st = (ok, st)
  axis_setting (suc left) set_idx parameter v st =
      let rest = axis_setting left (suc set_idx) (parameter - axis_settings_increment) v st in
      if ltb parameter n_axis
      then (ok, record st { settings = set_axis set_idx parameter v st.settings })
      else if ltb parameter axis_settings_increment || suc set_idx == axis_n_settings
      then (invalid_statement, st)
      else rest

  -- One case of the switch.
  unfoldable pub other_setting : Setting → ℕ → F → Store F → Status × Store F
  other_setting pulse_time n v st =
      if ltb n 3
      then (setting_step_pulse_min, st)
      else (ok, record st { settings = record (st.settings) { pulse_microseconds = n } })
  other_setting idle_lock_time n v st =
      (ok, record st { settings = record (st.settings) { stepper_idle_lock_time = n } })
  other_setting step_invert n v st = (
    ok,
    effect step_dir_masks_changed
        (record st { settings = record (st.settings) { step_invert_mask = n } }),
  )
  other_setting dir_invert n v st = (
    ok,
    effect step_dir_masks_changed
        (record st { settings = record (st.settings) { dir_invert_mask = n } }),
  )
  other_setting invert_st_enable n v st =
      (ok, record st { settings = set_flag n bitflag_invert_st_enable st.settings })
  other_setting invert_limit_pins n v st =
      (ok, record st { settings = set_flag n bitflag_invert_limit_pins st.settings })
  other_setting invert_probe_pin n v st = (
    ok,
    effect (probe_configure_invert_mask false)
        (record st { settings = set_flag n bitflag_invert_probe_pin st.settings }),
  )
  other_setting report_mask n v st =
      (ok, record st { settings = record (st.settings) { status_report_mask = n } })
  other_setting junction n v st =
      (ok, record st { settings = record (st.settings) { junction_deviation = v } })
  other_setting arc n v st =
      (ok, record st { settings = record (st.settings) { arc_tolerance = v } })
  other_setting report_inches n v st = (
    ok,
    effect system_flag_wco_change
        (record st { settings = set_flag n bitflag_report_inches st.settings }),
  )
  other_setting soft_limits n v st =
      if n == 0
      then (ok, record st { settings = set_flag n bitflag_soft_limit_enable st.settings })
      else if bit_isfalse st.settings.flags bitflag_homing_enable
      then (soft_limit_error, st)
      else (ok, record st { settings = set_flag n bitflag_soft_limit_enable st.settings })
  other_setting hard_limits n v st = (
    ok,
    effect limits_init (record st { settings = set_flag n bitflag_hard_limit_enable st.settings }),
  )
  other_setting homing_cycle n v st =
      if n == 0
      then (
        ok,
        record st {
          settings =
              set_flag n bitflag_soft_limit_enable (set_flag n bitflag_homing_enable st.settings);
        },
      )
      else (ok, record st { settings = set_flag n bitflag_homing_enable st.settings })
  other_setting homing_dir n v st =
      (ok, record st { settings = record (st.settings) { homing_dir_mask = n } })
  other_setting feed_rate n v st =
      (ok, record st { settings = record (st.settings) { homing_feed_rate = v } })
  other_setting seek_rate n v st =
      (ok, record st { settings = record (st.settings) { homing_seek_rate = v } })
  other_setting debounce n v st =
      (ok, record st { settings = record (st.settings) { homing_debounce_delay = n } })
  other_setting pulloff n v st =
      (ok, record st { settings = record (st.settings) { homing_pulloff = v } })
  other_setting spindle_max n v st =
      (ok, effect spindle_init (record st { settings = record (st.settings) { rpm_max = v } }))
  other_setting spindle_min n v st =
      (ok, effect spindle_init (record st { settings = record (st.settings) { rpm_min = v } }))
  other_setting laser_mode n v st = (setting_disabled_laser, st)
  other_setting unknown n v st = (invalid_statement, st)

  -- The call of write_global_settings that every branch without a return reaches.
  abbrev pub save : Store F → Store F
  save st = effect (write_global_settings st.settings) st

  -- The end of settings_store_global_setting: `return(STATUS_OK)` after the save.
  abbrev pub finish : Status × Store F → Status × Store F
  finish (s, st) = if is_ok s then (ok, save st) else (s, st)

  unfoldable pub settings_store_global_setting : ℕ → F → Store F → Status × Store F
  settings_store_global_setting parameter v st =
      if ops.is_negative v
      then (negative_value, st)
      else if leb axis_settings_start_val parameter
      then finish (axis_setting axis_n_settings 0 (parameter - axis_settings_start_val) v st)
      else finish (other_setting (setting_of parameter) (ops.trunc_byte v) v st)

  -- for (idx=0; idx <= SETTING_INDEX_NCOORD; idx++): the first `n` writes.
  unfoldable pub clear_coord_data : ℕ → Store F → Store F
  clear_coord_data zero st = st
  clear_coord_data (suc n) st = effect (settings_write_coord_data n) (clear_coord_data n st)

  abbrev pub is_set : ℕ → Byte → Bool
  is_set n flags = bit_istrue flags (bit n)

  abbrev when : Bool → (Store F → Store F) → Store F → Store F
  when true f st = f st
  when false f st = st

  -- The two startup lines are at 768 and 768 + 81, the build info at 942.
  unfoldable pub settings_restore : Settings F → Byte → Store F → Store F
  unfolding clear_coord_data
  settings_restore defaults flags st =
      let st1 : Store F = when (is_set 0 flags) (λ s. save (record s { settings = defaults })) st in
      let st2 : Store F = when (is_set 1 flags) (clear_coord_data 8) st1 in
      let st3 : Store F =
        when (is_set 2 flags)
          (λ s. effect (eeprom_put_char 850 0) (
            effect (eeprom_put_char 849 0)
              (effect (eeprom_put_char 769 0) (effect (eeprom_put_char 768 0) s))))
          st2 in
      when (is_set 3 flags) (λ s. effect (eeprom_put_char 943 0) (effect (eeprom_put_char 942 0) s))
        st3
