-- ===== src/Commands/Defs.antt =====
-- The '$' commands. The g-code parser, the homing cycle and the float type are parameters; reports
-- and the stored lines are recorded as calls.
use zephyr_grbl.Prelude.{
  ◌==◌, if◌then◌else◌, get_or, drop, ℕ, Bool, true, false, not, ◌&&◌, ◌||◌, Option, none, some,
  List, ◌∷◌,
}
use zephyr_grbl.Flags.{Byte, zero_byte, bit, ◌bor◌, complement, bit_isfalse}
use zephyr_grbl.System.{
  State, state_bits, state_in, is_idle, is_alarm, is_jog, is_check_mode, Machine, call, set_state,
  idle, check_mode, homing, cycle, hold, report_feedback_message, st_go_idle,
}
use zephyr_grbl.System.Exec.{mc_reset, system_set_exec_state_flag}
use zephyr_grbl.System.Masks.{
  exec_sleep, message_alarm_unlock, message_enabled, message_disabled, message_restore_defaults,
}
use zephyr_grbl.Settings.{
  ValueOps, Status, Settings, Store, bitflag_homing_enable, settings_store_global_setting,
  settings_restore,
}
use zephyr_grbl.Number.{FloatOps, read_float}

-- Status codes of report.h; a setting's status has its own type.
pub data Reply : Type 0 where
  reply_ok bad_number_format statement_invalid setting_disabled idle_error : Reply
  setting_reply : Status → Reply
  gcode_reply : ℕ → Reply

-- A call of a report or of the storage.
pub data Report : Type 0 where
  report_grbl_help report_grbl_settings report_gcode_modes report_ngc_parameters : Report
  report_build_info report_startup_lines system_execute_startup : Report
  settings_store_build_info : List ℕ → Report
  settings_store_startup_line : ℕ → List ℕ → Report

pub record Shell (F : Type 0) : Type 0 where
  pub machine : Machine
  pub store : Store F
  pub reports : List Report

-- The parts of the program that the commands call and that are not modelled, and the operations on
-- floats.
pub record Parts : Type 1 where
  pub floats : FloatOps
  pub values : ValueOps floats.Float
  -- parameter > 255
  pub above_byte : floats.Float → Bool
  pub defaults : Settings floats.Float
  pub run_gcode : List ℕ → Shell floats.Float → ℕ × Shell floats.Float
  pub mc_homing_cycle : Shell floats.Float → Shell floats.Float

-- line[i]; the line ends with a 0.
abbrev pub char_at : List ℕ → ℕ → ℕ
char_at line i = get_or line i 0

module _ (parts : Parts) where
  abbrev Float : Type 0
  Float = parts.floats.Float

  abbrev report : Report → Shell Float → Shell Float
  report r s = record s { reports = r ∷ s.reports }

  abbrev on_machine : (Machine → Machine) → Shell Float → Shell Float
  on_machine f s = record s { machine = f s.machine }

  abbrev state_of : Shell Float → State
  state_of s = s.machine.sys.state

  -- system_check_safety_door_ajar, without ENABLE_SAFETY_DOOR_INPUT_PIN
  abbrev pub system_check_safety_door_ajar : Bool
  system_check_safety_door_ajar = false

  -- $J=
  unfoldable pub jog_command : List ℕ → Shell Float → Reply × Shell Float
  jog_command line s =
      if not (is_idle (state_of s)) && not (is_jog (state_of s))
      then (idle_error, s)
      else if not (char_at line 2 == b'=')
      then (statement_invalid, s)
      else (let r = parts.run_gcode line s in (gcode_reply r.0, r.1))

  -- $C
  unfoldable pub check_command : Shell Float → Reply × Shell Float
  check_command s =
      if is_check_mode (state_of s)
      then (
        reply_ok,
        on_machine (λ m. call (report_feedback_message message_disabled) (mc_reset m)) s,
      )
      else if not (is_idle (state_of s))
      then (idle_error, s)
      else (
        reply_ok,
        on_machine (λ m. call (report_feedback_message message_enabled) (set_state check_mode m)) s,
      )

  -- $X
  unfoldable pub unlock_command : Shell Float → Reply × Shell Float
  unlock_command s =
      if is_alarm (state_of s)
      then (
        reply_ok,
        on_machine (λ m. set_state idle (call (report_feedback_message message_alarm_unlock) m)) s,
      )
      else (reply_ok, s)

  -- $$, $G, $C and $X
  unfoldable pub mode_command : ℕ → Shell Float → Reply × Shell Float
  mode_command c s =
      if c == b'$'
      then (if state_in (state_of s) (state_bits cycle bor state_bits hold)
          then (idle_error, s)
          else (reply_ok, report report_grbl_settings s))
      else if c == b'G'
      then (reply_ok, report report_gcode_modes s)
      else if c == b'C'
      then check_command s
      else unlock_command s

  -- $H
  unfoldable pub homing_command : List ℕ → Shell Float → Reply × Shell Float
  homing_command line s =
      if bit_isfalse s.store.settings.flags bitflag_homing_enable
      then (setting_disabled, s)
      else (let s1 : Shell Float = on_machine (set_state homing) s in
          if not (char_at line 2 == 0)
          then (statement_invalid, s1)
          else (let s2 : Shell Float = parts.mc_homing_cycle s1 in
              if s2.machine.sys.abort then (reply_ok, s2) else (
                reply_ok,
                report system_execute_startup
                    (on_machine (λ m. call st_go_idle (set_state idle m)) s2),
              )))

  -- $SLP
  unfoldable pub sleep_command : List ℕ → Shell Float → Reply × Shell Float
  sleep_command line s =
      if (char_at line 2 == b'L') && ((char_at line 3 == b'P') && (char_at line 4 == 0))
      then (reply_ok, on_machine (system_set_exec_state_flag exec_sleep) s)
      else (statement_invalid, s)

  -- $I and $I=
  unfoldable pub info_command : List ℕ → Shell Float → Reply × Shell Float
  info_command line s =
      if char_at line 2 == 0
      then (reply_ok, report report_build_info s)
      else if not (char_at line 2 == b'=')
      then (statement_invalid, s)
      else (reply_ok, report (settings_store_build_info (drop 3 line)) s)

  -- The flags of $RST=$, $RST=# and $RST=*.
  unfoldable pub restore_flag : ℕ → Option Byte
  restore_flag c =
      if c == b'$'
      then some (bit 0)
      else if c == b'#'
      then some (bit 1)
      else if c == b'*'
      then some (complement zero_byte)
      else none

  -- $RST=
  unfoldable pub restore_command : List ℕ → Shell Float → Reply × Shell Float
  restore_command line s =
      if (char_at line 2 == b'S')
        && ((char_at line 3 == b'T') && ((char_at line 4 == b'=') && (char_at line 6 == 0)))
      then elim (restore_flag (char_at line 5)) [
        | none ↦ (statement_invalid, s)
        | some flags ↦ (
          reply_ok,
          on_machine (λ m. mc_reset (call (report_feedback_message message_restore_defaults) m))
              (record s { store = settings_restore parts.values parts.defaults flags s.store }),
        )
      ]
      else (statement_invalid, s)

  -- After `$N<number>=`: check the block with the parser, then store it.
  unfoldable pub startup_line : Float → List ℕ → Shell Float → Reply × Shell Float
  startup_line n block s =
      let r = parts.run_gcode block s in
      if r.0 == 0
      then (reply_ok, report (settings_store_startup_line (parts.values.trunc_byte n) block) r.1)
      else (gcode_reply r.0, r.1)

  -- After `$<number>=`: store a setting.
  unfoldable pub store_setting : Float → List ℕ → Shell Float → Reply × Shell Float
  store_setting n text s = elim (read_float parts.floats text) [
    | none ↦ (bad_number_format, s)
    | some (v, rest) ↦
        if not (char_at rest 0 == 0) || parts.above_byte n
        then (statement_invalid, s)
        else (let r =
              settings_store_global_setting parts.values (parts.values.trunc_byte n) v s.store in
            (setting_reply r.0, record s { store = r.1 }))
  ]

  -- `<number>=` and what follows.
  unfoldable pub numbered_command : Bool → List ℕ → Shell Float → Reply × Shell Float
  numbered_command is_startup text s = elim (read_float parts.floats text) [
    | none ↦ (bad_number_format, s)
    | some (n, rest) ↦
        if not (char_at rest 0 == b'=')
        then (statement_invalid, s)
        else if is_startup
        then startup_line n (drop 1 rest) s
        else store_setting n (drop 1 rest) s
  ]

  -- The commands that need IDLE or ALARM.
  unfoldable pub quiet_command : ℕ → List ℕ → Shell Float → Reply × Shell Float
  quiet_command c line s =
      if c == b'#'
      then (if char_at line 2 == 0
          then (reply_ok, report report_ngc_parameters s)
          else (statement_invalid, s))
      else if c == b'H'
      then homing_command line s
      else if c == b'S'
      then sleep_command line s
      else if c == b'I'
      then info_command line s
      else if c == b'R'
      then restore_command line s
      else if c == b'N'
      then (if char_at line 2 == 0
          then (reply_ok, report report_startup_lines s)
          else if not (is_idle (state_of s))
          then (idle_error, s)
          else numbered_command true (drop 2 line) s)
      else numbered_command false (drop 1 line) s

  unfoldable pub system_execute_line : List ℕ → Shell Float → Reply × Shell Float
  system_execute_line line s =
      let c : ℕ = char_at line 1 in
      if c == 0
      then (reply_ok, report report_grbl_help s)
      else if c == b'J'
      then jog_command line s
      else if c == b'$' || (c == b'G' || (c == b'C' || c == b'X'))
      then (if char_at line 2 == 0 then mode_command c s else (statement_invalid, s))
      else if not (is_idle (state_of s) || is_alarm (state_of s))
      then (idle_error, s)
      else quiet_command c line s
