-- ===== src/Settings/Axes.antt =====
-- The numbering of the axis settings, $100 to $132: the loop of settings_store_global_setting
-- against division by ten.
use zephyr_grbl.Prelude.{
  ltb, ◌==◌, if◌then◌else◌, Bool-cases, ℕ, zero, suc, ◌+◌, ◌-◌, ◌/◌, ◌%◌, ◌<◌, ◌≡◌, refl, inl, inr,
  false, ◌&&◌, ◌||◌, arith,
}
use zephyr_grbl.Flags.{}
use zephyr_grbl.Settings.Data.{
  ValueOps, Store, n_axis, axis_n_settings, axis_settings_start_val, axis_settings_increment, ok,
  invalid_statement,
}
use zephyr_grbl.Settings.Defs.{set_axis, axis_setting, save, settings_store_global_setting}

module _ {F : Type 0} (ops : ValueOps F) where
  -- What the loop does from set_idx on, with `left` settings to go.
  axis_setting_lem :
      (left set_idx p : ℕ) (v : F) (st : Store F)
      → 0 < left
      → left + set_idx ≡ axis_n_settings
      → axis_setting ops left set_idx p v st ≡ (
          if ltb (p / 10) left && ltb (p % 10) n_axis
          then (ok, record st { settings = set_axis ops (set_idx + p / 10) (p % 10) v st.settings })
          else (invalid_statement, st))
  unfolding axis_setting
  axis_setting_lem zero set_idx p v st h e = absurd (omega arith)
  axis_setting_lem (suc left) set_idx p v st h e = elim (Bool-cases (ltb p n_axis)) [
    | inl axis ↦
        let d : p / 10 ≡ 0 = ground arith in
        let m : p % 10 ≡ p = ground arith in rw (d, m, axis) (ground arith)
    | inr no_axis ↦
        elim (Bool-cases (ltb p axis_settings_increment || suc set_idx == axis_n_settings)) [
          | inl stop ↦
              let f : (ltb (p / 10) (suc left) && ltb (p % 10) n_axis) ≡ false = ground arith in
              rw (no_axis, stop, f) refl
          | inr go ↦
              let ih =
                axis_setting_lem left (suc set_idx) (p - axis_settings_increment) v st
                  (ground arith) (ground arith) in
              let d : p / 10 ≡ suc ((p - axis_settings_increment) / 10) = ground arith in
              let m : p % 10 ≡ (p - axis_settings_increment) % 10 = ground arith in
              let q : ℕ = (p - axis_settings_increment) / 10 in
              let i : set_idx + suc q ≡ suc set_idx + q = omega arith in
              let b : ltb (suc q) (suc left) ≡ ltb q left = ground arith in
              rw (no_axis, go, ih, d, m, i, b) refl
        ]
  ]

  -- Setting $100 + 10*i + a, for a number i below 4 and an axis a below 3, stores case i for axis a
  -- and saves; every other number from 100 on is an invalid statement.
  pub axis_settings :
      (p : ℕ) (v : F) (st : Store F)
      → ops.is_negative v ≡ false
      → settings_store_global_setting ops (axis_settings_start_val + p) v st ≡ (
          if ltb (p / 10) axis_n_settings && ltb (p % 10) n_axis
          then (
            ok,
            save ops (record st { settings = set_axis ops (p / 10) (p % 10) v st.settings }),
          )
          else (invalid_statement, st))
  unfolding settings_store_global_setting
  axis_settings p v st h =
      let loop = axis_setting_lem axis_n_settings 0 p v st (omega arith) refl in ground arith
