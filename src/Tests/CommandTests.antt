-- ===== src/Tests/CommandTests.antt =====
-- The '$' commands at concrete inputs.
use zephyr_grbl.Prelude.{leb, ◌==◌, ℕ, ◌*◌, ◌/◌, ◌≡◌, refl, false, not, List, [], ◌∷◌}
use zephyr_grbl.Flags.{bit}
use zephyr_grbl.System.{homing, hold}
use zephyr_grbl.Settings.{}
use zephyr_grbl.Commands.{Shell, Parts, system_execute_line}
use zephyr_grbl.Commands.Gate.{
  Untouched, is_busy, system_execute_line-Untouched, homing_suffix_locks,
}
use zephyr_grbl.Tests.Machines.{ready_machine}
use zephyr_grbl.Tests.SettingsTests.{Number, ops, stored}

-- The parser accepts every block, and the homing cycle does nothing.
abbrev parts : Parts
parts = record {
  floats = record {
    Float = Number;
    of_uint32 = λ n. (false, n * 1000);
    is_zero = λ v. v.1 == 0;
    times_hundredth = λ v. (v.0, v.1 / 100);
    times_tenth = λ v. (v.0, v.1 / 10);
    times_ten = λ v. (v.0, v.1 * 10);
    negate = λ v. (not v.0, v.1);
  };
  values = ops;
  above_byte = λ v. leb 255 (v.1 / 1000);
  defaults = stored;
  run_gcode = λ line s. (0, s);
  mc_homing_cycle = λ s. s;
}

-- IDLE, with homing enabled.
abbrev idle_shell : Shell Number
idle_shell = record {
  machine = ready_machine;
  store = record { settings = record stored { flags = bit 4 }; effects = [] };
  reports = [];
}

abbrev holding_shell : Shell Number
holding_shell = record idle_shell {
  machine = record ready_machine { sys = record (ready_machine.sys) { state = hold } };
}

-- $20=1
abbrev soft_limits_line : List ℕ
soft_limits_line = b'$' ∷ b'2' ∷ b'0' ∷ b'=' ∷ b'1' ∷ []

-- $HX
abbrev home_x : List ℕ
home_x = b'$' ∷ b'H' ∷ b'X' ∷ []

system_execute_line-Untouched_example :
    Untouched holding_shell (system_execute_line parts soft_limits_line holding_shell).1
unfolding is_busy
system_execute_line-Untouched_example =
    system_execute_line-Untouched parts soft_limits_line holding_shell refl

homing_suffix_locks_example :
    ((system_execute_line parts home_x idle_shell).1.machine.sys.state ≡ homing)
    × Untouched
        (system_execute_line parts home_x idle_shell).1
        (system_execute_line parts
          (b'$' ∷ b'X' ∷ [])
          (system_execute_line parts home_x idle_shell).1).1
homing_suffix_locks_example =
    homing_suffix_locks parts home_x (b'$' ∷ b'X' ∷ []) idle_shell refl refl refl refl
