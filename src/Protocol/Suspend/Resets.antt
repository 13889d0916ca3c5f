-- ===== src/Protocol/Suspend/Resets.antt =====
-- A reset ends the suspend manager (protocol.c, lines 561 to 781, and delay_sec of nuts_bolts.c).
use mathlib.Core.Path.{subst}
use zephyr_grbl.Prelude.{
  if_split, ℕ, zero, suc, ◌+◌, ◌-◌, ◌≤◌, ◌≡◌, refl, sym, ap, true, not, ◌||◌, Option, some, arith,
}
use zephyr_grbl.Flags.{is_nonzero, bit_isfalse}
use zephyr_grbl.System.{is_safety_door, is_sleep, Machine}
use zephyr_grbl.System.Masks.{suspend_hold_complete, suspend_retract_complete}
use zephyr_grbl.Serial.{receive_commands}
use zephyr_grbl.Protocol.Realtime.{Arrivals}
use zephyr_grbl.Protocol.Suspend.{
  Restore, interrupted, sleep_until_abort, fall_asleep, retract, check_door, suspend_round,
  suspend_loop, arrivals_length, protocol_exec_rt_suspend,
}
use zephyr_grbl.Protocol.Suspend.Returns.{Ended, suspend_loop-ends}
use zephyr_grbl.Protocol.Suspend.Quiet.{
  quiet, IsReset, IsThrough, exec-reset, k_msleep-quiet, aborted, aborted-IsReset, through,
  IsThrough-then, IsThrough-bind, check_door-IsReset, hold_round-IsReset,
  restore_accessories-IsThrough,
}

sleep_until_abort-aborted :
    (fuel : ℕ) (rx : Arrivals) (m : Machine)
    → m.sys.abort ≡ true
    → sleep_until_abort fuel rx m ≡ some (m, rx)
unfolding sleep_until_abort
sleep_until_abort-aborted zero rx m e = rw (e, sleep_until_abort) refl
sleep_until_abort-aborted (suc fuel) rx m e = rw (e, sleep_until_abort) refl

sleep_until_abort-IsThrough :
    (fuel k : ℕ) (m : Machine)
    → 1 ≤ k
    → IsReset m
    → IsThrough 0 (sleep_until_abort (suc fuel) (quiet k) m)
unfolding sleep_until_abort interrupted quiet receive_commands
sleep_until_abort-IsThrough fuel zero m h r = absurd (omega arith)
sleep_until_abort-IsThrough fuel (suc k) m h r =
    if_split (IsThrough 0) m.sys.abort (λ _. through 0 (suc k) m (omega arith) r)
      (λ _. IsThrough-then _ (aborted m) (quiet (suc k)) (exec-reset _ m r) (
        IsThrough-then _ (aborted m) (quiet k) refl (
          subst (IsThrough 0) (sym (sleep_until_abort-aborted fuel (quiet k) (aborted m) refl))
            (through 0 k (aborted m) (omega arith) (aborted-IsReset r)))))

-- A round comes to its end, if what follows it does with the quiet milliseconds that it leaves.
suspend_round-IsThrough :
    (fuel : ℕ) (restore : Restore) (next : Arrivals → Machine → Option (Machine × Arrivals))
    (n k : ℕ) (m : Machine)
    → n + 100 ≤ k
    → IsReset m
    → ((k : ℕ) (m : Machine) → n ≤ k → IsReset m → IsThrough 0 (next (quiet k) m))
    → IsThrough 0 (suspend_round (suc fuel) restore next (quiet k) m)
unfolding suspend_round retract
suspend_round-IsThrough fuel restore next n k m h r go =
    if_split (IsThrough 0) (bit_isfalse m.sys.suspend suspend_hold_complete)
      (λ _. go k m (omega arith) r)
      (λ _.
        if_split (IsThrough 0) (not (is_safety_door m.sys.state || is_sleep m.sys.state))
          (λ _. go k _ (omega arith) (hold_round-IsReset restore m r))
          (λ _.
            if_split (IsThrough 0) (bit_isfalse m.sys.suspend suspend_retract_complete)
              (λ _.
                go k _ (omega arith) (record { flag_lem = r.flag_lem; alarm_lem = r.alarm_lem }))
              (λ _.
                if_split (IsThrough 0) (is_sleep m.sys.state)
                  (λ _.
                    sleep_until_abort-IsThrough fuel k (fall_asleep m) (omega arith)
                      (record { flag_lem = r.flag_lem; alarm_lem = r.alarm_lem }))
                  (λ _.
                    IsThrough-bind next
                      (restore_accessories-IsThrough restore n k (check_door m) h
                        (check_door-IsReset m r))
                      go))))

suspend_loop-aborted :
    (restore : Restore) (fuel k : ℕ) (m : Machine)
    → 1 ≤ k
    → IsReset m
    → IsThrough 0 (suspend_loop (suc fuel) restore (quiet k) (aborted m))
unfolding suspend_loop
suspend_loop-aborted restore fuel k m h r =
    if_split (IsThrough 0) (not (is_nonzero m.sys.suspend))
      (λ _. through 0 k (aborted m) (omega arith) (aborted-IsReset r))
      (λ _.
        IsThrough-then _ (aborted m) (quiet (k - 1)) (k_msleep-quiet 1 k (aborted m) h)
          (through 0 (k - 1) (aborted m) (omega arith) (aborted-IsReset r)))

suspend_loop-IsThrough :
    (restore : Restore) (fuel k : ℕ) (m : Machine)
    → 2 ≤ fuel
    → 102 ≤ k
    → IsReset m
    → IsThrough 0 (suspend_loop fuel restore (quiet k) m)
unfolding suspend_loop
suspend_loop-IsThrough restore zero k m f h r = absurd (omega arith)
suspend_loop-IsThrough restore (suc zero) k m f h r = absurd (omega arith)
suspend_loop-IsThrough restore (suc (suc fuel)) k m f h r =
    if_split (IsThrough 0) (not (is_nonzero m.sys.suspend)) (λ _. through 0 k m (omega arith) r)
      (λ _. IsThrough-then _ m (quiet (k - 1)) (k_msleep-quiet 1 k m (omega arith)) (
        if_split (IsThrough 0) m.sys.abort (λ _. through 0 (k - 1) m (omega arith) r)
          (λ _.
            suspend_round-IsThrough (suc fuel) restore _ 1 (k - 1) m (omega arith) r (λ k2 m2 h2 r2.
              IsThrough-then _ (aborted m2) (quiet k2) (exec-reset _ m2 r2)
                (suspend_loop-aborted restore fuel k2 m2 h2 r2)))))

length-quiet : (n : ℕ) → arrivals_length (quiet n) ≡ n
unfolding quiet
length-quiet zero = refl
length-quiet (suc n) = ap suc (length-quiet n)

-- With the reset flag up and no alarm, if no byte arrives during the first 102 milliseconds of the
-- sleeps of the suspend manager and of delay_sec (and of rounds of the wait in the sleep mode), the
-- suspend manager returns, from any state and with any suspend flags, and then the abort flag is
-- raised or no suspend flag is up.
pub protocol_exec_rt_suspend-reset :
    (restore : Restore) (n : ℕ) (m : Machine)
    → 102 ≤ n
    → IsReset m
    → (r : Machine × Arrivals) × ((protocol_exec_rt_suspend restore (quiet n) m ≡ some r)
        × Ended r.0)
unfolding protocol_exec_rt_suspend
protocol_exec_rt_suspend-reset restore n m h reset =
    let fuel : 2 ≤ arrivals_length (quiet n) = rw (length-quiet n) (omega arith) in
    let t = suspend_loop-IsThrough restore (arrivals_length (quiet n)) n m fuel h reset in
    let r : Machine × Arrivals = (t.machine, quiet t.left) in
    (r, (t.result_lem, suspend_loop-ends _ restore _ m r t.result_lem))
