-- ===== src/Settings/Data.antt =====
-- settings_t (settings.h, lines 86 to 116), the parameter numbers, the statuses and the calls that
-- storing a setting makes. The float type of the settings is a parameter, with the operations that
-- the code applies to a value.
use zephyr_grbl.Prelude.{◌==◌, if◌then◌else◌, ℕ, Bool, true, false, List}
use zephyr_grbl.Flags.{Byte, bit}

pub record ValueOps (F : Type 0) : Type 0 where
  -- value < 0.0
  pub is_negative : F → Bool
  -- (uint8_t) trunc(value)
  pub trunc_byte : F → ℕ
  -- value*60*60
  pub per_minute : F → F
  -- -value
  pub negate : F → F

-- The status codes that storing a setting returns.
pub data Status : Type 0 where
  ok negative_value invalid_statement setting_step_pulse_min soft_limit_error : Status
  setting_disabled_laser : Status

abbrev pub is_ok : Status → Bool
is_ok ok = true
is_ok _ = false

-- An array over the axes is a list of N_AXIS entries.
pub record Settings (F : Type 0) : Type 0 where
  pub steps_per_mm : List F
  pub max_rate : List F
  pub acceleration : List F
  pub max_travel : List F
  pub pulse_microseconds : ℕ
  pub step_invert_mask : ℕ
  pub dir_invert_mask : ℕ
  pub stepper_idle_lock_time : ℕ
  pub status_report_mask : ℕ
  pub junction_deviation : F
  pub arc_tolerance : F
  pub rpm_max : F
  pub rpm_min : F
  pub flags : Byte
  pub homing_dir_mask : ℕ
  pub homing_feed_rate : F
  pub homing_seek_rate : F
  pub homing_debounce_delay : ℕ
  pub homing_pulloff : F

-- A call of another subsystem; step_dir_masks_changed is that of st_generate_step_dir_invert_masks.
-- write_global_settings carries the settings that it writes.
pub data Effect (F : Type 0) : Type 0 where
  step_dir_masks_changed system_flag_wco_change limits_init spindle_init : Effect F
  probe_configure_invert_mask : Bool → Effect F
  write_global_settings : Settings F → Effect F
  settings_write_coord_data : ℕ → Effect F
  eeprom_put_char : ℕ → ℕ → Effect F

-- The global `settings` and the calls made so far, latest first.
pub record Store (F : Type 0) : Type 0 where
  pub settings : Settings F
  pub effects : List (Effect F)

abbrev pub n_axis : ℕ
n_axis = 3

abbrev pub axis_n_settings : ℕ
axis_n_settings = 4

abbrev pub axis_settings_start_val : ℕ
axis_settings_start_val = 100

abbrev pub axis_settings_increment : ℕ
axis_settings_increment = 10

abbrev pub bitflag_report_inches : Byte
bitflag_report_inches = bit 0

abbrev pub bitflag_invert_st_enable : Byte
bitflag_invert_st_enable = bit 2

abbrev pub bitflag_hard_limit_enable : Byte
bitflag_hard_limit_enable = bit 3

abbrev pub bitflag_homing_enable : Byte
bitflag_homing_enable = bit 4

abbrev pub bitflag_soft_limit_enable : Byte
bitflag_soft_limit_enable = bit 5

abbrev pub bitflag_invert_limit_pins : Byte
bitflag_invert_limit_pins = bit 6

abbrev pub bitflag_invert_probe_pin : Byte
bitflag_invert_probe_pin = bit 7

-- The parameter numbers of the settings that belong to no axis, as the switch names them.
pub data Setting : Type 0 where
  pulse_time idle_lock_time step_invert dir_invert invert_st_enable invert_limit_pins : Setting
  invert_probe_pin report_mask junction arc report_inches soft_limits hard_limits : Setting
  homing_cycle homing_dir feed_rate seek_rate debounce pulloff spindle_max spindle_min : Setting
  laser_mode unknown : Setting

-- The labels of the switch.
unfoldable pub setting_of : ℕ → Setting
setting_of p =
    if p == 0
    then pulse_time
    else if p == 1
    then idle_lock_time
    else if p == 2
    then step_invert
    else if p == 3
    then dir_invert
    else if p == 4
    then invert_st_enable
    else if p == 5
    then invert_limit_pins
    else if p == 6
    then invert_probe_pin
    else if p == 10
    then report_mask
    else if p == 11
    then junction
    else if p == 12
    then arc
    else if p == 13
    then report_inches
    else if p == 20
    then soft_limits
    else if p == 21
    then hard_limits
    else if p == 22
    then homing_cycle
    else if p == 23
    then homing_dir
    else if p == 24
    then feed_rate
    else if p == 25
    then seek_rate
    else if p == 26
    then debounce
    else if p == 27
    then pulloff
    else if p == 30
    then spindle_max
    else if p == 31
    then spindle_min
    else if p == 32
    then laser_mode
    else unknown
