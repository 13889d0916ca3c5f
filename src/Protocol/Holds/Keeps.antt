-- ===== src/Protocol/Holds/Keeps.antt =====
-- What the handling of sys_rt_exec_state leaves alone.
use zephyr_grbl.Prelude.{if◌then◌else◌, ◌≡◌, ◌∙◌, Bool, true, false, arith}
use zephyr_grbl.Flags.{Byte, bit, ◌bor◌, is_nonzero, bit_istrue}
use zephyr_grbl.System.{Machine, alarm, state_in, state_bits}
use zephyr_grbl.System.Exec.{system_clear_exec_state_flag}
use zephyr_grbl.Protocol.Holds.{
  status_report, hold_motion, hold_idle, motion_cancel, feed_hold, enter_door, open_door,
  go_to_sleep, hold_flags, exec_holds, resume_door, start_cycle, exec_cycle_start_flag,
  complete_hold, complete_motion, exec_cycle_stop_flag, exec_state_flags,
}

-- The override percentages and requests, and the reset.
pub record Keeps (m m' : Machine) : Type 0 where
  pub feed : m'.sys.f_override ≡ m.sys.f_override
  pub rapid : m'.sys.r_override ≡ m.sys.r_override
  pub spindle : m'.sys.spindle_speed_ovr ≡ m.sys.spindle_speed_ovr
  pub motion : m'.rt_exec_motion_override ≡ m.rt_exec_motion_override
  pub accessory : m'.rt_exec_accessory_override ≡ m.rt_exec_accessory_override
  pub abort : m'.sys.abort ≡ m.sys.abort

Keeps-refl : (m : Machine) → Keeps m m
Keeps-refl m = ground arith

Keeps-trans : (a b c : Machine) → Keeps a b → Keeps b c → Keeps a c
Keeps-trans a b c p q = record {
  feed = q.feed ∙ p.feed;
  rapid = q.rapid ∙ p.rapid;
  spindle = q.spindle ∙ p.spindle;
  motion = q.motion ∙ p.motion;
  accessory = q.accessory ∙ p.accessory;
  abort = q.abort ∙ p.abort;
}

-- A guarded step keeps what the step keeps.
Keeps-if : (b : Bool) (m m' : Machine) → Keeps m m' → Keeps m (if b then m' else m)
Keeps-if true m m' k = k
Keeps-if false m m' k = Keeps-refl m

status_report-Keeps : (rt : Byte) (m : Machine) → Keeps m (status_report rt m)
unfolding status_report
status_report-Keeps rt m = ground arith

hold_motion-Keeps : (rt : Byte) (m : Machine) → Keeps m (hold_motion rt m)
unfolding hold_motion
hold_motion-Keeps rt m = ground arith

hold_idle-Keeps : (m : Machine) → Keeps m (hold_idle m)
unfolding hold_idle
hold_idle-Keeps m = ground arith

motion_cancel-Keeps : (rt : Byte) (m : Machine) → Keeps m (motion_cancel rt m)
unfolding motion_cancel
motion_cancel-Keeps rt m = ground arith

feed_hold-Keeps : (rt : Byte) (m : Machine) → Keeps m (feed_hold rt m)
unfolding feed_hold
feed_hold-Keeps rt m = ground arith

open_door-Keeps : (rt : Byte) (m : Machine) → Keeps m (open_door rt m)
unfolding open_door enter_door
open_door-Keeps rt m = ground arith

go_to_sleep-Keeps : (rt : Byte) (m : Machine) → Keeps m (go_to_sleep rt m)
unfolding go_to_sleep
go_to_sleep-Keeps rt m = ground arith

-- The chain of hold methods, as exec_holds applies it in the states that allow a hold.
abbrev hold_methods : Byte → Machine → Machine
hold_methods rt m = open_door rt (feed_hold rt (motion_cancel rt (hold_idle (hold_motion rt m))))

hold_methods-Keeps : (rt : Byte) (m : Machine) → Keeps m (hold_methods rt m)
hold_methods-Keeps rt m =
    let m1 : Machine = hold_motion rt m in
    let m2 : Machine = hold_idle m1 in
    let m3 : Machine = motion_cancel rt m2 in
    let m4 : Machine = feed_hold rt m3 in
    let m5 : Machine = open_door rt m4 in
    Keeps-trans m m1 m5 (hold_motion-Keeps rt m) (
      Keeps-trans m1 m2 m5 (hold_idle-Keeps m1) (
        Keeps-trans m2 m3 m5 (motion_cancel-Keeps rt m2)
          (Keeps-trans m3 m4 m5 (feed_hold-Keeps rt m3) (open_door-Keeps rt m4))))

exec_holds-Keeps : (rt : Byte) (m : Machine) → Keeps m (exec_holds rt m)
unfolding exec_holds
exec_holds-Keeps rt m =
    let locked : Bool = state_in m.sys.state (state_bits alarm bor bit 1) in
    let m' : Machine = if locked then m else hold_methods rt m in
    let m'' : Machine = go_to_sleep rt m' in
    Keeps-if (bit_istrue rt hold_flags) m (system_clear_exec_state_flag hold_flags m'') (
      Keeps-trans m m' (system_clear_exec_state_flag hold_flags m'') (allowed locked) (
        Keeps-trans m' m'' (system_clear_exec_state_flag hold_flags m'') (go_to_sleep-Keeps rt m')
          (ground arith)))
  where
    allowed : (b : Bool) → Keeps m (if b then m else hold_methods rt m)
    allowed true = Keeps-refl m
    allowed false = hold_methods-Keeps rt m

exec_cycle_start_flag-Keeps : (rt : Byte) (m : Machine) → Keeps m (exec_cycle_start_flag rt m)
unfolding exec_cycle_start_flag resume_door start_cycle
exec_cycle_start_flag-Keeps rt m = ground arith

exec_cycle_stop_flag-Keeps : (rt : Byte) (m : Machine) → Keeps m (exec_cycle_stop_flag rt m)
unfolding exec_cycle_stop_flag complete_hold complete_motion
exec_cycle_stop_flag-Keeps rt m = ground arith

pub exec_state_flags-Keeps : (rt : Byte) (m : Machine) → Keeps m (exec_state_flags rt m)
unfolding exec_state_flags
exec_state_flags-Keeps rt m =
    let m1 : Machine = status_report rt m in
    let m2 : Machine = exec_holds rt m1 in
    let m3 : Machine = exec_cycle_start_flag rt m2 in
    let m4 : Machine = exec_cycle_stop_flag rt m3 in
    Keeps-if (is_nonzero rt) m m4 (
      Keeps-trans m m1 m4 (status_report-Keeps rt m) (
        Keeps-trans m1 m2 m4 (exec_holds-Keeps rt m1) (
          Keeps-trans m2 m3 m4 (exec_cycle_start_flag-Keeps rt m2)
            (exec_cycle_stop_flag-Keeps rt m3))))
