-- ===== src/Protocol/Suspend/Quiet.antt =====
-- The parts of the suspend manager come to their end when a reset is up and no byte arrives
-- (protocol.c, lines 561 to 781, and delay_sec of nuts_bolts.c).
use mathlib.Core.Path.{subst}
use zephyr_grbl.Prelude.{
  ◌==◌, ==_iff, if_split, ℕ, zero, suc, ◌+◌, ◌-◌, ◌≤◌, ◌≡◌, refl, sym, ap, ◌∙◌, true, not, ◌||◌,
  Option, some, [], ◌∷◌, arith,
}
use zephyr_grbl.Flags.{is_nonzero, bit_istrue, bit_isfalse}
use zephyr_grbl.System.{Machine}
use zephyr_grbl.System.Masks.{exec_reset, suspend_restart_retract, suspend_initiate_restore}
use zephyr_grbl.Serial.{receive_commands}
use zephyr_grbl.Protocol.Realtime.{Arrivals, protocol_exec_rt_system, exec_alarm, exec_flags}
use zephyr_grbl.Protocol.Suspend.{
  Restore, and_then, k_msleep, delay_sec, spindle_delay, coolant_delay, restore_spindle,
  restore_coolant, resume_program, check_door, restore_accessories, stop_override_initiate,
  stop_override_restore, hold_round, dwell_time_step,
}

-- `n` milliseconds in which no byte arrives.
unfoldable pub quiet : ℕ → Arrivals
quiet zero = []
quiet (suc n) = [] ∷ quiet n

-- The reset flag is up, and no alarm is.
pub record IsReset (m : Machine) : Type 0 where
  pub flag_lem : bit_istrue m.rt_exec_state exec_reset ≡ true
  pub alarm_lem : m.rt_exec_alarm ≡ 0

-- A call that comes to its end after `k` of the `n` quiet milliseconds at most, with the reset still
-- up.
pub record IsThrough (n : ℕ) (o : Option (Machine × Arrivals)) : Type 0 where
  pub machine : Machine
  pub left : ℕ
  pub result_lem : o ≡ some (machine, quiet left)
  pub reset_lem : IsReset machine
  pub left_lem : n ≤ left

pub exec-reset :
    (rx : Arrivals) (m : Machine)
    → IsReset m
    → protocol_exec_rt_system rx m ≡ some (record m { sys = record (m.sys) { abort = true } }, rx)
unfolding protocol_exec_rt_system exec_alarm exec_flags
exec-reset rx m r =
    let no_alarm : (m.rt_exec_alarm == 0) ≡ true = (==_iff m.rt_exec_alarm 0).1 r.alarm_lem in
    rw (no_alarm, r.flag_lem) refl

pub and_then-some :
    {A : Type 0} (o : Option (Machine × Arrivals)) (f : Arrivals → Machine → Option A) (m : Machine)
    (rx : Arrivals)
    → o ≡ some (m, rx)
    → and_then o f ≡ f rx m
unfolding and_then
and_then-some o f m rx e = rw (e, and_then) refl

-- A sleep in quiet milliseconds.
pub k_msleep-quiet :
    (ms k : ℕ) (m : Machine) → ms ≤ k → k_msleep ms (quiet k) m ≡ some (m, quiet (k - ms))
unfolding k_msleep quiet receive_commands
k_msleep-quiet zero k m h = let same : k ≡ k - 0 = omega arith in ap (λ x. some (m, quiet x)) same
k_msleep-quiet (suc ms) zero m h = absurd (omega arith)
k_msleep-quiet (suc ms) (suc k) m h =
    let same : k - ms ≡ suc k - suc ms = omega arith in
    k_msleep-quiet ms k m (omega arith) ∙ ap (λ x. some (m, quiet x)) same

abbrev pub aborted : Machine → Machine
aborted m = record m { sys = record (m.sys) { abort = true } }

pub aborted-IsReset : {m : Machine} → IsReset m → IsReset (aborted m)
aborted-IsReset r = record { flag_lem = r.flag_lem; alarm_lem = r.alarm_lem }

pub through : (n k : ℕ) (m : Machine) → n ≤ k → IsReset m → IsThrough n (some (m, quiet k))
through n k m h r = record { machine = m; left = k; result_lem = refl; reset_lem = r; left_lem = h }

pub IsThrough-then :
    {n : ℕ} {o : Option (Machine × Arrivals)} (f : Arrivals → Machine → Option (Machine × Arrivals))
    (m : Machine) (rx : Arrivals)
    → o ≡ some (m, rx)
    → IsThrough n (f rx m)
    → IsThrough n (and_then o f)
IsThrough-then f m rx e t = subst (IsThrough _) (sym (and_then-some _ _ m rx e)) t

pub IsThrough-bind :
    {n n' : ℕ} {o : Option (Machine × Arrivals)}
    (f : Arrivals → Machine → Option (Machine × Arrivals))
    → IsThrough n o
    → ((k : ℕ) (m : Machine) → n ≤ k → IsReset m → IsThrough n' (f (quiet k) m))
    → IsThrough n' (and_then o f)
IsThrough-bind f t go =
    IsThrough-then f t.machine (quiet t.left) t.result_lem
      (go t.left t.machine t.left_lem t.reset_lem)

pub delay_sec-aborted :
    (i : ℕ) (rx : Arrivals) (m : Machine) → m.sys.abort ≡ true → delay_sec i rx m ≡ some (m, rx)
unfolding delay_sec
delay_sec-aborted zero rx m e = refl
delay_sec-aborted (suc i) rx m e = rw (e, delay_sec) refl

pub delay_sec-IsThrough :
    (i n k : ℕ) (m : Machine) → n + 50 ≤ k → IsReset m → IsThrough n (delay_sec i (quiet k) m)
unfolding delay_sec
delay_sec-IsThrough zero n k m h r = through n k m (omega arith) r
delay_sec-IsThrough (suc i) n k m h r =
    if_split (IsThrough n) m.sys.abort (λ _. through n k m (omega arith) r)
      (λ _. IsThrough-then _ (aborted m) (quiet k) (exec-reset _ m r) (
        if_split (IsThrough n) (bit_istrue m.sys.suspend suspend_restart_retract)
          (λ _. through n k (aborted m) (omega arith) (aborted-IsReset r))
          (λ _.
            IsThrough-then _ (aborted m) (quiet (k - dwell_time_step))
              (k_msleep-quiet dwell_time_step k (aborted m) (omega arith))
              (subst (IsThrough n)
                (sym (delay_sec-aborted i (quiet (k - dwell_time_step)) (aborted m) refl))
                (through n (k - dwell_time_step) (aborted m) (omega arith) (aborted-IsReset r))))))

pub restore_spindle-IsThrough :
    (restore : Restore) (n k : ℕ) (m : Machine)
    → n + 50 ≤ k
    → IsReset m
    → IsThrough n (restore_spindle restore (quiet k) m)
unfolding restore_spindle
restore_spindle-IsThrough restore n k m h r =
    if_split (IsThrough n)
      (not (is_nonzero m.modal_spindle) || bit_istrue m.sys.suspend suspend_restart_retract)
      (λ _. through n k m (omega arith) r)
      (λ _.
        if_split (IsThrough n) restore.laser_mode
          (λ _.
            through n k _ (omega arith) (record { flag_lem = r.flag_lem; alarm_lem = r.alarm_lem }))
          (λ _.
            delay_sec-IsThrough spindle_delay n k _ h
              (record { flag_lem = r.flag_lem; alarm_lem = r.alarm_lem })))

pub restore_coolant-IsThrough :
    (restore : Restore) (n k : ℕ) (m : Machine)
    → n + 50 ≤ k
    → IsReset m
    → IsThrough n (restore_coolant restore (quiet k) m)
unfolding restore_coolant
restore_coolant-IsThrough restore n k m h r =
    if_split (IsThrough n)
      (not (is_nonzero m.modal_coolant) || bit_istrue m.sys.suspend suspend_restart_retract)
      (λ _. through n k m (omega arith) r)
      (λ _.
        delay_sec-IsThrough coolant_delay n k _ h
          (record { flag_lem = r.flag_lem; alarm_lem = r.alarm_lem }))

pub resume_program-IsReset : (m : Machine) → IsReset m → IsReset (resume_program m)
unfolding resume_program
resume_program-IsReset m r =
    let flag = r.flag_lem in
    let alarm = r.alarm_lem in record { flag_lem = ground arith; alarm_lem = ground arith }

pub check_door-IsReset : (m : Machine) → IsReset m → IsReset (check_door m)
unfolding check_door
check_door-IsReset m r =
    let flag = r.flag_lem in
    let alarm = r.alarm_lem in record { flag_lem = ground arith; alarm_lem = ground arith }

pub hold_round-IsReset :
    (restore : Restore) (m : Machine) → IsReset m → IsReset (hold_round restore m)
unfolding hold_round stop_override_initiate stop_override_restore
hold_round-IsReset restore m r =
    let flag = r.flag_lem in
    let alarm = r.alarm_lem in record { flag_lem = ground arith; alarm_lem = ground arith }

pub restore_accessories-IsThrough :
    (restore : Restore) (n k : ℕ) (m : Machine)
    → n + 100 ≤ k
    → IsReset m
    → IsThrough n (restore_accessories restore (quiet k) m)
unfolding restore_accessories
restore_accessories-IsThrough restore n k m h r =
    if_split (IsThrough n) (bit_isfalse m.sys.suspend suspend_initiate_restore)
      (λ _. through n k m (omega arith) r)
      (λ _.
        IsThrough-bind _ (restore_spindle-IsThrough restore (n + 50) k m (omega arith) r)
          (λ k1 m1 h1 r1.
            IsThrough-bind _ (restore_coolant-IsThrough restore n k1 m1 h1 r1)
              (λ k2 m2 h2 r2. through n k2 (resume_program m2) h2 (resume_program-IsReset m2 r2))))
