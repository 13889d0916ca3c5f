-- ===== src/Commands/Gate.antt =====
-- Which commands may run in which state.
use zephyr_grbl.Prelude.{◌==◌, ℕ, ◌≡◌, ap, Bool, true, false, ◌||◌, List, arith}
use zephyr_grbl.Flags.{bit_istrue}
use zephyr_grbl.System.{State, is_idle, is_alarm, homing, cycle, hold, safety_door, sleep}
use zephyr_grbl.Settings.{bitflag_homing_enable}
use zephyr_grbl.Commands.{
  Shell, Parts, char_at, jog_command, check_command, unlock_command, mode_command, homing_command,
  quiet_command, system_execute_line,
}

-- The machine moves or is suspended: HOMING, CYCLE, HOLD, SAFETY_DOOR or SLEEP.
unfoldable pub is_busy : State → Bool
is_busy homing = true
is_busy cycle = true
is_busy hold = true
is_busy safety_door = true
is_busy sleep = true
is_busy _ = false

-- The machine and the settings are as before; reports may have been made.
pub record Untouched {F : Type 0} (s t : Shell F) : Type 0 where
  machine : t.machine ≡ s.machine
  store : t.store ≡ s.store

module _ (parts : Parts) where
  mode_command-Untouched :
      (c : ℕ) (s : Shell parts.floats.Float)
      → is_busy s.machine.sys.state ≡ true
      → Untouched s (mode_command parts c s).1
  unfolding mode_command check_command unlock_command is_busy
  mode_command-Untouched c s b = ground arith

  jog_command-Untouched :
      (line : List ℕ) (s : Shell parts.floats.Float)
      → is_busy s.machine.sys.state ≡ true
      → Untouched s (jog_command parts line s).1
  unfolding jog_command is_busy
  jog_command-Untouched line s b = ground arith

  -- While the machine moves or is suspended, no '$' command, well-formed or not, changes the
  -- machine, its flags, the planner or a setting: it at most prints a report.
  pub system_execute_line-Untouched :
      (line : List ℕ) (s : Shell parts.floats.Float)
      → is_busy s.machine.sys.state ≡ true
      → Untouched s (system_execute_line parts line s).1
  unfolding system_execute_line is_busy
  system_execute_line-Untouched line s b =
      let mode = mode_command-Untouched (char_at line 1) s b in
      let jogs = jog_command-Untouched line s b in ground arith

  homing_suffix-state :
      (line : List ℕ) (s : Shell parts.floats.Float)
      → (is_idle s.machine.sys.state || is_alarm s.machine.sys.state) ≡ true
      → char_at line 1 ≡ b'H'
      → (char_at line 2 == 0) ≡ false
      → bit_istrue s.store.settings.flags bitflag_homing_enable ≡ true
      → (system_execute_line parts line s).1.machine.sys.state ≡ homing
  unfolding system_execute_line quiet_command homing_command
  homing_suffix-state line s ready h suffix enabled = rw h (ground arith)

  -- In IDLE or ALARM with homing enabled, a line that begins with $H and goes on leaves the state
  -- HOMING although no homing cycle runs, and no '$' command changes that.
  pub homing_suffix_locks :
      (line next : List ℕ) (s : Shell parts.floats.Float)
      → (is_idle s.machine.sys.state || is_alarm s.machine.sys.state) ≡ true
      → char_at line 1 ≡ b'H'
      → (char_at line 2 == 0) ≡ false
      → bit_istrue s.store.settings.flags bitflag_homing_enable ≡ true
      → ((system_execute_line parts line s).1.machine.sys.state ≡ homing)
        × Untouched
            (system_execute_line parts line s).1
            (system_execute_line parts next (system_execute_line parts line s).1).1
  unfolding is_busy
  homing_suffix_locks line next s ready h suffix enabled =
      let locked = homing_suffix-state line s ready h suffix enabled in
      (
        locked,
        system_execute_line-Untouched next (system_execute_line parts line s).1 (ap is_busy locked),
      )
