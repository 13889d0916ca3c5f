-- ===== src/Stepper/PinMasks.antt =====
-- The invert masks of the step and direction pins: st_generate_step_dir_invert_masks (stepper.c) and
-- the pin masks of settings.c.
use zephyr_grbl.Prelude.{◌==◌, if◌then◌else◌, ℕ, zero, suc, ◌<◌, ◌≡◌, arith}
use zephyr_grbl.Flags.{Byte, zero_byte, bit, ◌bor◌, bit_istrue}
use zephyr_grbl.Stepper.Defs.{
  Stepper, x_step, y_step, z_step, x_direction, y_direction, z_direction,
}

unfoldable pub get_step_pin_mask : ℕ → Byte
get_step_pin_mask axis_idx =
    if axis_idx == 0 then x_step else if axis_idx == 1 then y_step else z_step

unfoldable pub get_direction_pin_mask : ℕ → Byte
get_direction_pin_mask axis_idx =
    if axis_idx == 0 then x_direction else if axis_idx == 1 then y_direction else z_direction

-- The loop over the first `n` axes, for one of the two masks: the pins of the axes whose bit is set
-- in the setting.
unfoldable pub invert_mask : (ℕ → Byte) → Byte → ℕ → Byte
invert_mask pin_mask setting zero = zero_byte
invert_mask pin_mask setting (suc idx) =
    let before : Byte = invert_mask pin_mask setting idx in
    if bit_istrue setting (bit idx) then before bor pin_mask idx else before

unfoldable pub st_generate_step_dir_invert_masks : Byte → Byte → Stepper → Stepper
st_generate_step_dir_invert_masks step_setting dir_setting s = record s {
  step_port_invert_mask = invert_mask get_step_pin_mask step_setting 3;
  dir_port_invert_mask = invert_mask get_direction_pin_mask dir_setting 3;
}

-- Of the port, exactly the pins of the axes whose bits are set in $2 and $3 are inverted.
pub st_generate_step_dir_invert_masks_lem :
    (step_setting dir_setting : Byte) (s : Stepper) (axis_idx : ℕ)
    → axis_idx < 3
    → let t = st_generate_step_dir_invert_masks step_setting dir_setting s in
      (bit_istrue t.step_port_invert_mask (get_step_pin_mask axis_idx)
        ≡ bit_istrue step_setting (bit axis_idx))
      × (bit_istrue t.dir_port_invert_mask (get_direction_pin_mask axis_idx)
          ≡ bit_istrue dir_setting (bit axis_idx))
unfolding st_generate_step_dir_invert_masks invert_mask get_step_pin_mask get_direction_pin_mask
st_generate_step_dir_invert_masks_lem p q s zero h = ground arith
st_generate_step_dir_invert_masks_lem p q s (suc zero) h = ground arith
st_generate_step_dir_invert_masks_lem p q s (suc (suc zero)) h = ground arith
st_generate_step_dir_invert_masks_lem p q s (suc (suc (suc n))) h = absurd (omega arith)
