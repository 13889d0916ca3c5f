-- ===== src/Protocol/Realtime/Effects.antt =====
-- What one pass of the executor does to the requests, the override percentages and the alarm.
use mathlib.Core.Path.{subst}
use zephyr_grbl.Prelude.{Bool-cases, ◌≡◌, sym, inl, inr, arith}
use zephyr_grbl.Flags.{bit_istrue}
use zephyr_grbl.System.{Machine}
use zephyr_grbl.System.Masks.{exec_reset}
use zephyr_grbl.Protocol.Holds.{exec_state_flags}
use zephyr_grbl.Protocol.Holds.Keeps.{Keeps, exec_state_flags-Keeps}
use zephyr_grbl.Protocol.Overrides.{exec_motion_overrides, exec_accessory_overrides}
use zephyr_grbl.Protocol.Overrides.Bounds.{
  InLimits, exec_motion_overrides-InLimits, exec_accessory_overrides-InLimits,
}
use zephyr_grbl.Protocol.Realtime.{exec_flags, reload_segments}

Keeps-InLimits : (m m' : Machine) → Keeps m m' → InLimits m.sys → InLimits m'.sys
Keeps-InLimits m m' k v = ground arith

reload_segments-sys : (m : Machine) → (reload_segments m).sys ≡ m.sys
unfolding reload_segments
reload_segments-sys m = ground arith

-- The override percentages stay within the limits of config.h, whatever requests are pending.
pub exec_flags-InLimits : (m : Machine) → InLimits m.sys → InLimits (exec_flags m).sys
unfolding exec_flags
exec_flags-InLimits m v = elim (Bool-cases (bit_istrue m.rt_exec_state exec_reset)) [
  | inl e ↦ rw e (ground arith)
  | inr e ↦
      let m1 : Machine = exec_state_flags m.rt_exec_state m in
      let m2 : Machine = exec_motion_overrides m1 in
      let m3 : Machine = exec_accessory_overrides m2 in
      let v1 = Keeps-InLimits m m1 (exec_state_flags-Keeps m.rt_exec_state m) v in
      let v3 = exec_accessory_overrides-InLimits m2 (exec_motion_overrides-InLimits m1 v1) in
      rw e (subst InLimits (sym (reload_segments-sys m3)) v3)
]
