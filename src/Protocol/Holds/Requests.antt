-- ===== src/Protocol/Holds/Requests.antt =====
-- Each section of the executor clears the request flags that it handles, and no other.
use zephyr_grbl.Prelude.{
  if◌then◌else◌, Bool-cases, ◌≡◌, ap, ◌∙◌, inl, inr, Bool, true, false, arith,
}
use zephyr_grbl.Flags.{Byte, zero_byte, bit, ◌bor◌, bit_istrue, bit_isfalse, bit_false}
use zephyr_grbl.System.{Machine, alarm, state_in, state_bits}
use zephyr_grbl.System.Masks.{exec_status_report, exec_cycle_start, exec_cycle_stop, exec_reset}
use zephyr_grbl.Protocol.Holds.{
  status_report, hold_motion, hold_idle, motion_cancel, feed_hold, enter_door, open_door,
  go_to_sleep, hold_flags, exec_holds, resume_door, start_cycle, exec_cycle_start_flag,
  complete_hold, complete_motion, exec_cycle_stop_flag, exec_state_flags,
}

hold_motion-rt_exec_state :
    (rt : Byte) (m : Machine) → (hold_motion rt m).rt_exec_state ≡ m.rt_exec_state
unfolding hold_motion
hold_motion-rt_exec_state rt m = ground arith

hold_idle-rt_exec_state : (m : Machine) → (hold_idle m).rt_exec_state ≡ m.rt_exec_state
unfolding hold_idle
hold_idle-rt_exec_state m = ground arith

motion_cancel-rt_exec_state :
    (rt : Byte) (m : Machine) → (motion_cancel rt m).rt_exec_state ≡ m.rt_exec_state
unfolding motion_cancel
motion_cancel-rt_exec_state rt m = ground arith

feed_hold-rt_exec_state :
    (rt : Byte) (m : Machine) → (feed_hold rt m).rt_exec_state ≡ m.rt_exec_state
unfolding feed_hold
feed_hold-rt_exec_state rt m = ground arith

open_door-rt_exec_state :
    (rt : Byte) (m : Machine) → (open_door rt m).rt_exec_state ≡ m.rt_exec_state
unfolding open_door enter_door
open_door-rt_exec_state rt m = ground arith

go_to_sleep-rt_exec_state :
    (rt : Byte) (m : Machine) → (go_to_sleep rt m).rt_exec_state ≡ m.rt_exec_state
unfolding go_to_sleep
go_to_sleep-rt_exec_state rt m = ground arith

hold_methods-rt_exec_state :
    (rt : Byte) (m : Machine) (locked : Bool)
    → (go_to_sleep rt (
        if locked
        then m
        else open_door rt
            (feed_hold rt (motion_cancel rt (hold_idle (hold_motion rt m)))))).rt_exec_state
      ≡ m.rt_exec_state
hold_methods-rt_exec_state rt m true = go_to_sleep-rt_exec_state rt m
hold_methods-rt_exec_state rt m false =
    let m1 : Machine = hold_motion rt m in
    let m2 : Machine = hold_idle m1 in
    let m3 : Machine = motion_cancel rt m2 in
    let m4 : Machine = feed_hold rt m3 in
    go_to_sleep-rt_exec_state rt (open_door rt m4)
    ∙ open_door-rt_exec_state rt m4
    ∙ feed_hold-rt_exec_state rt m3
    ∙ motion_cancel-rt_exec_state rt m2
    ∙ hold_idle-rt_exec_state m1
    ∙ hold_motion-rt_exec_state rt m

exec_holds-rt_exec_state :
    (rt : Byte) (m : Machine)
    → (exec_holds rt m).rt_exec_state
      ≡ (if bit_istrue rt hold_flags then bit_false m.rt_exec_state hold_flags else m.rt_exec_state)
unfolding exec_holds
exec_holds-rt_exec_state rt m = elim (Bool-cases (bit_istrue rt hold_flags)) [
  | inl e ↦
      let locked : Bool = state_in m.sys.state (state_bits alarm bor bit 1) in
      rw e (ap (λ x. bit_false x hold_flags) (hold_methods-rt_exec_state rt m locked))
  | inr e ↦ rw e
]

status_report-rt_exec_state :
    (rt : Byte) (m : Machine)
    → (status_report rt m).rt_exec_state ≡ (
        if bit_istrue rt exec_status_report
        then bit_false m.rt_exec_state exec_status_report
        else m.rt_exec_state)
unfolding status_report
status_report-rt_exec_state rt m = ground arith

exec_cycle_start_flag-rt_exec_state :
    (rt : Byte) (m : Machine)
    → (exec_cycle_start_flag rt m).rt_exec_state ≡ (
        if bit_istrue rt exec_cycle_start
        then bit_false m.rt_exec_state exec_cycle_start
        else m.rt_exec_state)
unfolding exec_cycle_start_flag resume_door start_cycle
exec_cycle_start_flag-rt_exec_state rt m = ground arith

exec_cycle_stop_flag-rt_exec_state :
    (rt : Byte) (m : Machine)
    → (exec_cycle_stop_flag rt m).rt_exec_state ≡ (
        if bit_istrue rt exec_cycle_stop
        then bit_false m.rt_exec_state exec_cycle_stop
        else m.rt_exec_state)
unfolding exec_cycle_stop_flag complete_hold complete_motion
exec_cycle_stop_flag-rt_exec_state rt m = ground arith

-- A request without a reset is served in one pass: no flag of it is left.
pub exec_state_flags-served :
    (m : Machine)
    → bit_isfalse m.rt_exec_state exec_reset ≡ true
    → (exec_state_flags m.rt_exec_state m).rt_exec_state ≡ zero_byte
unfolding exec_state_flags
exec_state_flags-served m h =
    let rt : Byte = m.rt_exec_state in
    let m1 : Machine = status_report rt m in
    let m2 : Machine = exec_holds rt m1 in
    let m3 : Machine = exec_cycle_start_flag rt m2 in
    ground (
      arith,
      status_report-rt_exec_state rt m,
      exec_holds-rt_exec_state rt m1,
      exec_cycle_start_flag-rt_exec_state rt m2,
      exec_cycle_stop_flag-rt_exec_state rt m3,
    )
