-- ===== src/Settings/Storing.antt =====
-- What storing a setting promises: an error changes nothing, success is saved, and soft limits are
-- never enabled without homing.
use zephyr_grbl.Prelude.{
  ltb, ◌==◌, Bool-cases, ℕ, zero, suc, ◌-◌, ◌≤◌, ◌≡◌, inl, inr, true, false, ◌||◌, arith,
}
use zephyr_grbl.Flags.{bit_istrue, bit_isfalse}
use zephyr_grbl.Settings.Data.{
  ValueOps, Status, is_ok, Settings, Store, n_axis, axis_n_settings, axis_settings_start_val,
  axis_settings_increment, bitflag_homing_enable, bitflag_soft_limit_enable, Setting, setting_of,
}
use zephyr_grbl.Settings.Defs.{
  set_flag, set_axis, axis_setting, other_setting, settings_store_global_setting,
}

-- Soft limits need the position that only homing finds; a step pulse has 3 microseconds or more.
pub record IsSafe {F : Type 0} (s : Settings F) : Type 0 where
  pub soft_limits :
      (bit_isfalse s.flags bitflag_soft_limit_enable || bit_istrue s.flags bitflag_homing_enable)
      ≡ true
  pub pulse : 3 ≤ s.pulse_microseconds

module _ {F : Type 0} (ops : ValueOps F) where
  set_axis-IsSafe :
      (set_idx axis : ℕ) (v : F) (s : Settings F)
      → IsSafe s
      → IsSafe (set_axis ops set_idx axis v s)
  unfolding set_axis
  set_axis-IsSafe set_idx axis v s h = ground arith

  set_flag-soft :
      (n : ℕ) (s : Settings F)
      → IsSafe s
      → bit_istrue s.flags bitflag_homing_enable ≡ true
      → IsSafe (set_flag ops n bitflag_soft_limit_enable s)
  set_flag-soft n s h e = ground arith

  other_setting-IsSafe :
      (p : Setting) (n : ℕ) (v : F) (st : Store F)
      → IsSafe st.settings
      → IsSafe (other_setting ops p n v st).1.settings
  unfolding other_setting
  other_setting-IsSafe p n v st h = ground arith

  axis_setting-IsSafe :
      (left set_idx p : ℕ) (v : F) (st : Store F)
      → IsSafe st.settings
      → IsSafe (axis_setting ops left set_idx p v st).1.settings
  unfolding axis_setting
  axis_setting-IsSafe zero set_idx p v st h = h
  axis_setting-IsSafe (suc left) set_idx p v st h =
      let rest = axis_setting-IsSafe left (suc set_idx) (p - axis_settings_increment) v st h in
      let here = set_axis-IsSafe set_idx p v st.settings h in
      elim (Bool-cases (ltb p n_axis)) [
        | inl e ↦ rw e here
        | inr e ↦
            elim (Bool-cases (ltb p axis_settings_increment || suc set_idx == axis_n_settings)) [
              | inl f ↦ rw (e, f) h
              | inr f ↦ rw (e, f) rest
            ]
      ]

  -- Whatever is stored, soft limits stay off unless homing is enabled, and the step pulse does not
  -- get shorter than 3 microseconds.
  pub settings_store_global_setting-IsSafe :
      (p : ℕ) (v : F) (st : Store F)
      → IsSafe st.settings
      → IsSafe (settings_store_global_setting ops p v st).1.settings
  unfolding settings_store_global_setting
  settings_store_global_setting-IsSafe p v st h =
      let axis = axis_setting-IsSafe axis_n_settings 0 (p - axis_settings_start_val) v st h in
      let other = other_setting-IsSafe (setting_of p) (ops.trunc_byte v) v st h in ground arith

  -- A status other than STATUS_OK leaves the step that returned it without a change.
  Rejects : Status × Store F → Store F → Type 0
  Rejects r st = is_ok r.0 ≡ false → r.1 ≡ st

  axis_setting-Rejects :
      (left set_idx p : ℕ) (v : F) (st : Store F)
      → Rejects (axis_setting ops left set_idx p v st) st
  unfolding axis_setting Rejects
  axis_setting-Rejects zero set_idx p v st e = absurd (ground arith)
  axis_setting-Rejects (suc left) set_idx p v st e =
      let rest = axis_setting-Rejects left (suc set_idx) (p - axis_settings_increment) v st in
      ground arith

  other_setting-Rejects :
      (p : Setting) (n : ℕ) (v : F) (st : Store F) → Rejects (other_setting ops p n v st) st
  unfolding other_setting Rejects
  other_setting-Rejects p n v st e = ground arith

  -- A setting that is refused, for whatever reason, changes no setting and calls nothing.
  pub settings_store_global_setting_rejected :
      (p : ℕ) (v : F) (st : Store F)
      → is_ok (settings_store_global_setting ops p v st).0 ≡ false
      → (settings_store_global_setting ops p v st).1 ≡ st
  unfolding settings_store_global_setting Rejects
  settings_store_global_setting_rejected p v st e =
      let axis = axis_setting-Rejects axis_n_settings 0 (p - axis_settings_start_val) v st in
      let other = other_setting-Rejects (setting_of p) (ops.trunc_byte v) v st in ground arith
