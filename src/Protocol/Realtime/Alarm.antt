-- ===== src/Protocol/Realtime/Alarm.antt =====
-- Alarms and resets in protocol_exec_rt_system.
use mathlib.Core.Option
use mathlib.Core.Path.{subst}
use zephyr_grbl.Prelude.{
  ◌==◌, Bool-cases, Option-cases, ℕ, ◌≡◌, refl, sym, ap, ◌∙◌, inl, inr, Bool, true, false, ◌||◌,
  Option, none, some, List, [], ◌∷◌, arith,
}
use zephyr_grbl.Flags.{bit_istrue, bit_isfalse}
use zephyr_grbl.System.{
  Machine, alarm, call, set_state, report_alarm_message, report_feedback_message,
}
use zephyr_grbl.System.Exec.{mc_reset, system_clear_exec_state_flag, system_clear_exec_alarm}
use zephyr_grbl.System.Masks.{exec_reset, message_critical_event}
use zephyr_grbl.Serial.{serial_check_real_time_command, receive_commands, cmd_reset}
use zephyr_grbl.Protocol.Realtime.{
  Arrivals, wait_for_reset, is_critical, exec_alarm, exec_flags, protocol_exec_rt_system,
}

-- A reset character is among the bytes.
abbrev pub has_reset : List ℕ → Bool
has_reset [] = false
has_reset (c ∷ cs) = (c == cmd_reset) || has_reset cs

abbrev pub reset_arrives : Arrivals → Bool
reset_arrives [] = false
reset_arrives (cs ∷ rest) = has_reset cs || reset_arrives rest

-- Of the realtime commands only the reset character sets EXEC_RESET, and none clears it.
serial_check_real_time_command-reset :
    (c : ℕ) (m : Machine)
    → bit_istrue (serial_check_real_time_command c m).1.rt_exec_state exec_reset
      ≡ ((c == cmd_reset) || bit_istrue m.rt_exec_state exec_reset)
unfolding serial_check_real_time_command mc_reset
serial_check_real_time_command-reset c m = ground arith

serial_check_real_time_command-state :
    (c : ℕ) (m : Machine) → (serial_check_real_time_command c m).1.sys ≡ m.sys
unfolding serial_check_real_time_command mc_reset
serial_check_real_time_command-state c m = ground arith

receive_commands-reset :
    (cs : List ℕ) (m : Machine)
    → bit_istrue (receive_commands cs m).rt_exec_state exec_reset
      ≡ (has_reset cs || bit_istrue m.rt_exec_state exec_reset)
unfolding receive_commands
receive_commands-reset [] m = refl
receive_commands-reset (c ∷ cs) m =
    let m' : Machine = (serial_check_real_time_command c m).1 in
    ground (arith, receive_commands-reset cs m', serial_check_real_time_command-reset c m)

receive_commands-sys : (cs : List ℕ) (m : Machine) → (receive_commands cs m).sys ≡ m.sys
unfolding receive_commands
receive_commands-sys [] m = refl
receive_commands-sys (c ∷ cs) m =
    receive_commands-sys cs _ ∙ serial_check_real_time_command-state c m

-- What the wait returns: the reset flag is up, and the system state is as before.
record Waited (m m' : Machine) : Type 0 where
  reset : bit_istrue m'.rt_exec_state exec_reset ≡ true
  same : m'.sys ≡ m.sys

wait_for_reset-Waited :
    (rx : Arrivals) (m : Machine) (r : Machine × Arrivals)
    → wait_for_reset rx m ≡ some r
    → Waited m r.0
unfolding wait_for_reset
wait_for_reset-Waited [] m r e = cc
wait_for_reset-Waited (cs ∷ rest) m r e =
    let m' : Machine = receive_commands cs m in
    elim (Bool-cases (bit_isfalse m'.rt_exec_state exec_reset)) [
      | inl more ↦
          let w = wait_for_reset-Waited rest m' r (rw more at e) in
          record { reset = w.reset; same = w.same ∙ receive_commands-sys cs m }
      | inr done ↦
          let e' : some (m', rest) ≡ some r = rw done at e in
          let q : m' ≡ r.0 = cc in
          subst (Waited m) q (record { reset = ground arith; same = receive_commands-sys cs m })
    ]

-- The wait ends when, and only when, a reset character arrives.
wait_for_reset-none :
    (rx : Arrivals) (m : Machine)
    → bit_istrue m.rt_exec_state exec_reset ≡ false
    → (reset_arrives rx ≡ false → wait_for_reset rx m ≡ none)
      × (reset_arrives rx ≡ true → (r : Machine × Arrivals) × (wait_for_reset rx m ≡ some r))
unfolding wait_for_reset
wait_for_reset-none [] m h = (λ _. refl, λ e. cc)
wait_for_reset-none (cs ∷ rest) m h =
    let m' : Machine = receive_commands cs m in
    let flag = receive_commands-reset cs m in
    elim (Bool-cases (has_reset cs)) [
      | inl e ↦
          let done : bit_isfalse m'.rt_exec_state exec_reset ≡ false = ground arith in
          (λ f. ground arith, λ _. ((m', rest), rw done))
      | inr e ↦
          let more : bit_isfalse m'.rt_exec_state exec_reset ≡ true = ground arith in
          let flag' : bit_istrue m'.rt_exec_state exec_reset ≡ false = ground arith in
          rw (more, e) (wait_for_reset-none rest m' flag')
    ]

-- The machine when the wait begins.
abbrev waiting : Machine → Machine
waiting m = system_clear_exec_state_flag exec_reset (
    call (report_feedback_message message_critical_event)
      (call (report_alarm_message m.rt_exec_alarm) (set_state alarm m)))

exec_alarm-critical :
    (rx : Arrivals) (m : Machine)
    → is_critical m.rt_exec_alarm ≡ true
    → exec_alarm rx m
      ≡ Option.map (λ r. (system_clear_exec_alarm r.0, r.1)) (wait_for_reset rx (waiting m))
unfolding exec_alarm
exec_alarm-critical rx m c = elim (Bool-cases (m.rt_exec_alarm == 0)) [
  | inl z ↦ absurd (ground arith)
  | inr nz ↦ rw (nz, c)
]

exec_flags-reset :
    (m : Machine)
    → bit_istrue m.rt_exec_state exec_reset ≡ true
    → exec_flags m ≡ record m { sys = record (m.sys) { abort = true } }
unfolding exec_flags
exec_flags-reset m h = rw h

abbrev Aborted : Machine → Type 0
Aborted m =
    (m.sys.abort ≡ true)
    × (m.sys.state ≡ alarm)
    × (m.rt_exec_alarm ≡ 0)
    × (bit_istrue m.rt_exec_state exec_reset ≡ true)

-- After a critical alarm the executor returns only by a reset: the system is in ALARM, the alarm is
-- cleared, and the abort flag is raised.
pub critical-aborts :
    (rx : Arrivals) (m : Machine) (r : Machine × Arrivals)
    → is_critical m.rt_exec_alarm ≡ true
    → protocol_exec_rt_system rx m ≡ some r
    → (r.0.sys.abort ≡ true)
      × (r.0.sys.state ≡ alarm)
      × (r.0.rt_exec_alarm ≡ 0)
      × (bit_istrue r.0.rt_exec_state exec_reset ≡ true)
unfolding protocol_exec_rt_system
critical-aborts rx m r c e = elim (Option-cases (wait_for_reset rx (waiting m))) [
  | inl never ↦ let e' : none ≡ some r = rw (exec_alarm-critical rx m c, never) at e in cc
  | inr (w, found) ↦
      let waited = wait_for_reset-Waited rx (waiting m) w found in
      let m' : Machine = system_clear_exec_alarm w.0 in
      let e' : some (exec_flags m', w.1) ≡ some r = rw (exec_alarm-critical rx m c, found) at e in
      let q : exec_flags m' ≡ r.0 = cc in
      subst Aborted (sym (exec_flags-reset m' waited.reset) ∙ q)
        (refl, ap (λ s. s.state) waited.same, refl, waited.reset)
]

abbrev pub returned : Option (Machine × Arrivals) → Bool
returned none = false
returned (some r) = true

-- With a critical alarm the executor returns if and only if a reset character arrives while it
-- waits.
pub critical-returns :
    (rx : Arrivals) (m : Machine)
    → is_critical m.rt_exec_alarm ≡ true
    → returned (protocol_exec_rt_system rx m) ≡ reset_arrives rx
unfolding protocol_exec_rt_system
critical-returns rx m c =
    let (never, returns) = wait_for_reset-none rx (waiting m) refl in
    elim (Bool-cases (reset_arrives rx)) [
      | inl h ↦ let (r, found) = returns h in rw (h, exec_alarm-critical rx m c, found) refl
      | inr h ↦ rw (h, exec_alarm-critical rx m c, never h) refl
    ]
