-- ===== src/HwTimer/Registers.antt =====
-- What hw_timer_stm32_set_cycles writes to the registers.
use zephyr_grbl.Prelude.{
  ltb, leb, ◌==◌, if◌then◌else◌, if_split, ℕ, ◌+◌, ◌≡◌, refl, ap, ◌≢◌, ◌⊎◌, inl, inr, Bool, true,
  false, not, ◌&&◌, ◌||◌, Option, none, some, List, [], ◌∷◌, arith,
}
use zephyr_grbl.HwTimer.Defs.{
  LlChannel, TimerConfig, TimerFlags, TimerReads, OcInit, RegisterWrite, TimerStatus,
  counted_cycles, initial_output, program_output, set_counts, hw_timer_stm32_set_cycles, direct,
  complementary, disable_channel, oc_init, set_auto_reload, set_compare, timer_ok, einval, enotsup,
  eio,
}

-- The auto-reload value among the writes.
abbrev pub auto_reload_of : List RegisterWrite → Option ℕ
auto_reload_of [] = none
auto_reload_of (set_auto_reload period ∷ ws) = some period
auto_reload_of (_ ∷ ws) = auto_reload_of ws

-- The channel and the compare value among the writes, directly or for a new output.
abbrev pub compare_of : List RegisterWrite → Option (ℕ × ℕ)
compare_of [] = none
compare_of (set_compare channel pulse ∷ ws) = some (channel, pulse)
compare_of (oc_init (direct channel) output ∷ ws) = some (channel, output.compare_value)
compare_of (_ ∷ ws) = compare_of ws

-- The writes set both counts on the channel.
abbrev pub Programs : ℕ → Option (ℕ × ℕ) → List RegisterWrite → Type 0
Programs channel none ws = ⊥
Programs channel (some counts) ws =
    (auto_reload_of ws ≡ some counts.0) × (compare_of ws ≡ some (channel, counts.1))

-- A call that fails writes nothing, but for the output that LL_TIM_OC_Init refuses.
abbrev pub Fails : TimerStatus × List RegisterWrite → Type 0
Fails result =
    (result.0 ≡ timer_ok) ⊎ (result.1 ≡ []) ⊎ ((result.0 ≡ eio) × (auto_reload_of result.1 ≡ none))

eio-ne-timer_ok : eio ≢ timer_ok
eio-ne-timer_ok h = ground (arith, h)

pub einval-ne-timer_ok : einval ≢ timer_ok
einval-ne-timer_ok h = ground (arith, h)

enotsup-ne-timer_ok : enotsup ≢ timer_ok
enotsup-ne-timer_ok h = ground (arith, h)

module _ (reads : TimerReads) (flags : TimerFlags) (channel : ℕ) (has_negative : Bool) where
  initial_output-compare :
      (pulse : ℕ) → (initial_output reads flags channel has_negative pulse).compare_value ≡ pulse
  unfolding initial_output
  initial_output-compare pulse =
      if_split {A = OcInit} (λ x. x.compare_value ≡ pulse) flags.on_complementary (λ e. refl)
        (λ e. refl)

  program_output-Programs :
      (current : LlChannel) (period pulse : ℕ)
      → (program_output reads flags channel current has_negative period pulse).0 ≡ timer_ok
      → Programs channel
          (some (period, pulse))
          (program_output reads flags channel current has_negative period pulse).1
  unfolding program_output
  program_output-Programs current period pulse =
      if_split {A = TimerStatus × List RegisterWrite}
        (λ x. x.0 ≡ timer_ok → Programs channel (some (period, pulse)) x.1)
        (reads.is_enabled current) (λ e h. (refl, refl))
        (λ e.
          if_split {A = TimerStatus × List RegisterWrite}
            (λ x. x.0 ≡ timer_ok → Programs channel (some (period, pulse)) x.1) reads.init_succeeds
            (λ f h. (refl, ap (λ x. some (channel, x)) (initial_output-compare pulse)))
            (λ f h. absurd (eio-ne-timer_ok h)))

  program_output-Fails :
      (current : LlChannel) (period pulse : ℕ)
      → Fails (program_output reads flags channel current has_negative period pulse)
  unfolding program_output
  program_output-Fails current period pulse =
      if_split Fails (reads.is_enabled current) (λ e. inl refl)
        (λ e. if_split Fails reads.init_succeeds (λ f. inl refl) (λ f. inr (inr (refl, refl))))

module _ (cfg : TimerConfig) (reads : TimerReads) (channel period pulse : ℕ)
    (flags : TimerFlags) where
  counted-Programs :
      (counts : Option (ℕ × ℕ)) (current : LlChannel) (has_negative : Bool)
      → (set_counts reads channel flags current has_negative counts).0 ≡ timer_ok
      → Programs channel counts (set_counts reads channel flags current has_negative counts).1
  unfolding set_counts
  counted-Programs none current has_negative h = absurd (enotsup-ne-timer_ok h)
  counted-Programs (some counts) current has_negative h =
      program_output-Programs reads flags channel has_negative current counts.0 counts.1 h

  current : LlChannel
  current = if flags.on_complementary then complementary channel else direct channel

  -- The ways out of hw_timer_stm32_set_cycles.
  set_cycles_cases :
      (P : TimerStatus × List RegisterWrite → Type 0)
      → P (einval, [])
      → P (enotsup, [])
      → ((period == 0) ≡ true → P (timer_ok, disable_channel current ∷ []))
      → ((not cfg.is_32bit && ltb (65535 + 1) period) ≡ false
          → (period == 0) ≡ false
          → P (
              set_counts reads channel flags current
                (leb channel cfg.complementary_channels)
                (counted_cycles cfg.countermode period pulse)))
      → P (hw_timer_stm32_set_cycles cfg reads channel period pulse flags)
  unfolding hw_timer_stm32_set_cycles current
  set_cycles_cases P invalid unsupported disabled counting =
      if_split P (ltb channel 1 || ltb cfg.timer_max_ch channel) (λ e. invalid)
        (λ e.
          if_split P (not cfg.is_32bit && ltb (65535 + 1) period) (λ f. unsupported)
            (λ f.
              if_split P (flags.on_complementary && not (leb channel cfg.complementary_channels))
                (λ g. invalid) (λ g. if_split P (period == 0) disabled (counting f))))

  -- A period that the driver accepts fits the timer.
  pub set_cycles-fits :
      (period == 0) ≡ false
      → (hw_timer_stm32_set_cycles cfg reads channel period pulse flags).0 ≡ timer_ok
      → (not cfg.is_32bit && ltb (65535 + 1) period) ≡ false
  set_cycles-fits positive =
      set_cycles_cases (λ x. x.0 ≡ timer_ok → (not cfg.is_32bit && ltb (65535 + 1) period) ≡ false)
        (λ h. absurd (einval-ne-timer_ok h)) (λ h. absurd (enotsup-ne-timer_ok h))
        (λ e h. absurd (ground (arith, e, positive))) (λ f e h. f)

  -- If hw_timer_stm32_set_cycles succeeds for a period that is not 0, it has set the auto-reload and
  -- the compare value of the channel to the counts for the counter mode, whether the channel ran
  -- before or not.
  pub hw_timer_stm32_set_cycles-Programs :
      (period == 0) ≡ false
      → (hw_timer_stm32_set_cycles cfg reads channel period pulse flags).0 ≡ timer_ok
      → Programs channel
          (counted_cycles cfg.countermode period pulse)
          (hw_timer_stm32_set_cycles cfg reads channel period pulse flags).1
  hw_timer_stm32_set_cycles-Programs positive =
      set_cycles_cases
        (λ x. x.0 ≡ timer_ok → Programs channel (counted_cycles cfg.countermode period pulse) x.1)
        (λ h. absurd (einval-ne-timer_ok h)) (λ h. absurd (enotsup-ne-timer_ok h))
        (λ e h. absurd (ground (arith, e, positive)))
        (λ f e.
          counted-Programs (counted_cycles cfg.countermode period pulse) current
            (leb channel cfg.complementary_channels))

  set_counts-Fails :
      (counts : Option (ℕ × ℕ)) (output : LlChannel) (has_negative : Bool)
      → Fails (set_counts reads channel flags output has_negative counts)
  unfolding set_counts
  set_counts-Fails none output has_negative = inr (inl refl)
  set_counts-Fails (some counts) output has_negative =
      program_output-Fails reads flags channel has_negative output counts.0 counts.1

  -- If hw_timer_stm32_set_cycles fails, it has written no register, but for an output that
  -- LL_TIM_OC_Init refuses, and then the auto-reload value is as before.
  pub hw_timer_stm32_set_cycles-Fails :
      Fails (hw_timer_stm32_set_cycles cfg reads channel period pulse flags)
  hw_timer_stm32_set_cycles-Fails =
      set_cycles_cases Fails (inr (inl refl)) (inr (inl refl)) (λ e. inl refl)
        (λ f e.
          set_counts-Fails (counted_cycles cfg.countermode period pulse) current
            (leb channel cfg.complementary_channels))
