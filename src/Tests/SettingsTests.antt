-- ===== src/Tests/SettingsTests.antt =====
-- Storing settings at concrete inputs. A value is a number with a sign: true for negative.
use zephyr_grbl.Prelude.{ℕ, ◌*◌, ◌%◌, ◌≡◌, refl, Bool, true, false, not, [], ◌∷◌, arith}
use zephyr_grbl.Flags.{zero_byte}
use zephyr_grbl.Settings.{
  ValueOps, Settings, Store, setting_of, ok, set_axis, other_setting, save,
  settings_store_global_setting,
}
use zephyr_grbl.Settings.Storing.{
  IsSafe, settings_store_global_setting-IsSafe, settings_store_global_setting_rejected,
}
use zephyr_grbl.Settings.Axes.{axis_settings}

abbrev pub Number : Type 0
Number = Bool × ℕ

abbrev pub ops : ValueOps Number
ops = record {
  is_negative = λ v. v.0;
  trunc_byte = λ v. v.1 % 256;
  per_minute = λ v. (v.0, v.1 * 3600);
  negate = λ v. (not v.0, v.1);
}

abbrev plus : ℕ → Number
plus n = (false, n)

abbrev pub stored : Settings Number
stored = record {
  steps_per_mm = plus 250 ∷ plus 250 ∷ plus 250 ∷ [];
  max_rate = plus 500 ∷ plus 500 ∷ plus 500 ∷ [];
  acceleration = plus 36000 ∷ plus 36000 ∷ plus 36000 ∷ [];
  max_travel = (true, 200) ∷ (true, 200) ∷ (true, 200) ∷ [];
  pulse_microseconds = 10;
  step_invert_mask = 0;
  dir_invert_mask = 0;
  stepper_idle_lock_time = 25;
  status_report_mask = 1;
  junction_deviation = plus 1;
  arc_tolerance = plus 0;
  rpm_max = plus 1000;
  rpm_min = plus 0;
  flags = zero_byte;
  homing_dir_mask = 0;
  homing_feed_rate = plus 25;
  homing_seek_rate = plus 500;
  homing_debounce_delay = 250;
  homing_pulloff = plus 1;
}

abbrev pub before : Store Number
before = record { settings = stored; effects = [] }

before-IsSafe : IsSafe before.settings
before-IsSafe = ground arith

-- $20=1 without homing.
settings_store_global_setting-IsSafe_example :
    IsSafe (settings_store_global_setting ops 20 (plus 1) before).1.settings
settings_store_global_setting-IsSafe_example =
    settings_store_global_setting-IsSafe ops 20 (plus 1) before before-IsSafe

settings_store_global_setting_rejected_example :
    (settings_store_global_setting ops 20 (plus 1) before).1 ≡ before
unfolding settings_store_global_setting other_setting setting_of
settings_store_global_setting_rejected_example =
    settings_store_global_setting_rejected ops 20 (plus 1) before refl

-- $121=10
axis_settings_example :
    settings_store_global_setting ops 121 (plus 10) before
    ≡ (ok, save ops (record before { settings = set_axis ops 2 1 (plus 10) stored }))
axis_settings_example = axis_settings ops 21 (plus 10) before refl
