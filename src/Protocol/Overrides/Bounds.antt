-- ===== src/Protocol/Overrides/Bounds.antt =====
-- The values that the override section gives to sys.f_override, sys.r_override and
-- sys.spindle_speed_ovr.
use zephyr_grbl.Prelude.{
  ◌==◌, if◌then◌else◌, Bool-cases, ℕ, ◌+◌, ◌-◌, ◌≤◌, min, max, ◌≡◌, ◌⊎◌, inl, inr, Bool, not, ◌&&◌,
  arith,
}
use zephyr_grbl.Flags.{Byte, is_nonzero, bit_istrue}
use zephyr_grbl.System.{Machine, System}
use zephyr_grbl.System.Masks.{
  exec_feed_ovr_reset, exec_feed_ovr_coarse_plus, exec_feed_ovr_coarse_minus,
  exec_feed_ovr_fine_plus, exec_feed_ovr_fine_minus, default_feed_override, max_feed_rate_override,
  min_feed_rate_override, default_rapid_override, rapid_override_medium, rapid_override_low,
  max_spindle_speed_override, min_spindle_speed_override,
}
use zephyr_grbl.System.Exec.{system_clear_exec_accessory_overrides}
use zephyr_grbl.Protocol.Overrides.{
  set_spindle_override, stop_spindle, toggle_coolant, new_f_override, new_r_override,
  new_s_override, exec_motion_overrides, exec_accessory_overrides,
}

-- The limits of config.h.
pub record InLimits (s : System) : Type 0 where
  pub feed_low : min_feed_rate_override ≤ s.f_override
  pub feed_high : s.f_override ≤ max_feed_rate_override
  pub rapid :
      (s.r_override ≡ default_rapid_override)
      ⊎ (s.r_override ≡ rapid_override_medium)
      ⊎ (s.r_override ≡ rapid_override_low)
  pub spindle_low : min_spindle_speed_override ≤ s.spindle_speed_ovr
  pub spindle_high : s.spindle_speed_ovr ≤ max_spindle_speed_override

new_f_override_bounds :
    (rt : Byte) (f : ℕ)
    → (min_feed_rate_override ≤ new_f_override rt f)
      × (new_f_override rt f ≤ max_feed_rate_override)
unfolding new_f_override
new_f_override_bounds rt f = omega arith

new_s_override_bounds :
    (rt : Byte) (s : ℕ)
    → (min_spindle_speed_override ≤ new_s_override rt s)
      × (new_s_override rt s ≤ max_spindle_speed_override)
unfolding new_s_override
new_s_override_bounds rt s = omega arith

-- One of the three rapid rates.
abbrev IsRapid : ℕ → Type 0
IsRapid r = (r ≡ default_rapid_override) ⊎ (r ≡ rapid_override_medium) ⊎ (r ≡ rapid_override_low)

new_r_override-IsRapid : (rt : Byte) (r : ℕ) → IsRapid r → IsRapid (new_r_override rt r)
unfolding new_r_override
new_r_override-IsRapid rt r h = ground arith

pub exec_motion_overrides-InLimits :
    (m : Machine) → InLimits m.sys → InLimits (exec_motion_overrides m).sys
unfolding exec_motion_overrides
exec_motion_overrides-InLimits m v = ground (
  arith,
  new_f_override_bounds m.rt_exec_motion_override m.sys.f_override,
  new_r_override-IsRapid m.rt_exec_motion_override m.sys.r_override,
)

stop_spindle-InLimits :
    (rt : Byte) (m : Machine) → InLimits m.sys → InLimits (stop_spindle rt m).sys
unfolding stop_spindle
stop_spindle-InLimits rt m v = ground arith

toggle_coolant-InLimits :
    (rt : Byte) (m : Machine) → InLimits m.sys → InLimits (toggle_coolant rt m).sys
unfolding toggle_coolant
toggle_coolant-InLimits rt m v = ground arith

set_spindle_override-InLimits :
    (s : ℕ) (m : Machine)
    → min_spindle_speed_override ≤ s
    → s ≤ max_spindle_speed_override
    → InLimits m.sys
    → InLimits (set_spindle_override s m).sys
unfolding set_spindle_override
set_spindle_override-InLimits s m lo hi v = ground arith

pub exec_accessory_overrides-InLimits :
    (m : Machine) → InLimits m.sys → InLimits (exec_accessory_overrides m).sys
unfolding exec_accessory_overrides
exec_accessory_overrides-InLimits m v =
    let rt : Byte = m.rt_exec_accessory_override in
    let s : ℕ = new_s_override rt m.sys.spindle_speed_ovr in
    let cleared : Machine = system_clear_exec_accessory_overrides m in
    let m' : Machine = set_spindle_override s cleared in
    let (lo, hi) = new_s_override_bounds rt m.sys.spindle_speed_ovr in
    elim (Bool-cases (is_nonzero rt)) [
      | inl e ↦ rw e (
          toggle_coolant-InLimits rt (stop_spindle rt m')
            (stop_spindle-InLimits rt m' (set_spindle_override-InLimits s cleared lo hi v)))
      | inr e ↦ rw e v
    ]

-- The percentage that the flags ask for: 100 on a reset, else the current one, plus and minus the
-- increments. A sum of ℕ, so a request below 0 is 0.
abbrev pub requested : Byte → ℕ → ℕ
requested rt f =
    (if bit_istrue rt exec_feed_ovr_reset then default_feed_override else f)
    + (if bit_istrue rt exec_feed_ovr_coarse_plus then 10 else 0)
    + (if bit_istrue rt exec_feed_ovr_fine_plus then 1 else 0)
    - ((if bit_istrue rt exec_feed_ovr_coarse_minus then 10 else 0)
        + (if bit_istrue rt exec_feed_ovr_fine_minus then 1 else 0))

-- Coarse and fine decrease together, with nothing else, at the lowest percentage: the uint8_t
-- passes through 0 and comes out at 255.
abbrev pub is_underflow : Byte → ℕ → Bool
is_underflow rt f =
    (f == min_feed_rate_override)
    && (bit_istrue rt exec_feed_ovr_coarse_minus
        && (bit_istrue rt exec_feed_ovr_fine_minus
            && (not (bit_istrue rt exec_feed_ovr_coarse_plus)
                && (not (bit_istrue rt exec_feed_ovr_fine_plus)
                    && not (bit_istrue rt exec_feed_ovr_reset)))))

-- From a percentage within the limits, the new one is the requested one, brought within the limits,
-- except for one request: at the lowest percentage, coarse and fine decrease together give the
-- highest.
pub new_f_override_exact :
    (rt : Byte) (f : ℕ)
    → min_feed_rate_override ≤ f
    → f ≤ max_feed_rate_override
    → new_f_override rt f ≡ (
        if is_underflow rt f
        then max_feed_rate_override
        else max (min (requested rt f) max_feed_rate_override) min_feed_rate_override)
unfolding new_f_override
new_f_override_exact rt f lo hi = ground arith
