-- ===== src/HwTimer/Waveform.antt =====
-- The output that the registers of a timer give (its reference manual: counting up, down and
-- center-aligned, with LL_TIM_OCMODE_PWM1), and what hw_timer_set_cycles of hw_timer.h makes it.
use zephyr_grbl.Prelude.{
  ltb, leb, ◌==◌, if◌then◌else◌, ==_iff, if_split, ℕ, zero, suc, ◌+◌, ◌-◌, ◌*◌, ◌/◌, ◌%◌, ◌^◌, ◌≤◌,
  ◌<◌, ◌≡◌, refl, ap, Bool, true, false, not, ◌&&◌, ◌||◌, Option, none, some, List, arith,
}
use zephyr_grbl.HwTimer.Defs.{
  CounterMode, TimerConfig, TimerFlags, TimerReads, RegisterWrite, TimerStatus, counted_cycles,
  hw_timer_set_cycles, counter_up, counter_down, center_up, center_down, center_up_down, other_mode,
  timer_ok,
}
use zephyr_grbl.HwTimer.Registers.{
  auto_reload_of, compare_of, Programs, einval-ne-timer_ok, set_cycles-fits,
  hw_timer_stm32_set_cycles-Programs,
}

-- How many of the numbers below `n` pass the test.
abbrev pub count_values : (ℕ → Bool) → ℕ → ℕ
count_values test zero = 0
count_values test (suc n) = let rest : ℕ = count_values test n in if test n then suc rest else rest

-- The cycles of a period and the active ones among them, for the values of the auto-reload and the
-- compare register. Counting up, the counter takes the values 0 to `reload` and the output is active
-- while it is below `compare`. Counting down, from `reload` to 0, the output is inactive while it is
-- above `compare`. Center-aligned, it counts up from 0 to `reload` - 1 and down from `reload` to 1.
abbrev pub waveform : CounterMode → ℕ → ℕ → ℕ × ℕ
waveform counter_up reload compare = (reload + 1, count_values (λ v. ltb v compare) (reload + 1))
waveform counter_down reload compare =
    (reload + 1, count_values (λ v. not (ltb compare v)) (reload + 1))
waveform mode reload compare = (
  reload + reload,
  count_values (λ v. ltb v compare) reload + count_values (λ v. not (ltb compare (v + 1))) reload,
)

-- What a register of a timer of 32 bits, or else of 16 bits, keeps of a value.
abbrev pub register_value : Bool → ℕ → ℕ
register_value is_32bit value = if is_32bit then value % 2 ^ 32 else value % 2 ^ 16

-- What the modes can make of a period and a pulse.
abbrev pub attainable : CounterMode → ℕ → ℕ → ℕ × ℕ
attainable counter_up period pulse = (period, pulse)
attainable counter_down period pulse = (period, pulse)
attainable mode period pulse = (period / 2 * 2, pulse / 2 * 2)

-- The waveform of the channel after the writes, from the auto-reload value and the compare value.
abbrev pub waveform_of : TimerConfig → ℕ → Option ℕ → Option (ℕ × ℕ) → Option (ℕ × ℕ)
waveform_of cfg channel (some reload) (some compare) =
    if compare.0 == channel
    then some (
        waveform cfg.countermode (register_value cfg.is_32bit reload)
          (register_value cfg.is_32bit compare.1))
    else none
waveform_of cfg channel reload compare = none

abbrev pub output_of : TimerConfig → ℕ → List RegisterWrite → Option (ℕ × ℕ)
output_of cfg channel ws = waveform_of cfg channel (auto_reload_of ws) (compare_of ws)

count_values-below :
    (test : ℕ → Bool) (c : ℕ)
    → ((v : ℕ) → test v ≡ ltb v c)
    → (n : ℕ) → count_values test n ≡ (if ltb c n then c else n)
count_values-below test c h zero = ground arith
count_values-below test c h (suc n) =
    let before = count_values-below test c h n in let now = h n in ground (arith, before, now)

-- Counts that fit the registers.
unfoldable Attains : Bool → CounterMode → ℕ → ℕ → Option (ℕ × ℕ) → Type 0
Attains is_32bit mode period pulse none = Unit
Attains is_32bit mode period pulse (some counts) =
    waveform mode (register_value is_32bit counts.0) (register_value is_32bit counts.1)
    ≡ attainable mode period pulse

module _ (is_32bit : Bool) (period pulse : ℕ) (long : 2 ≤ period) (in_period : pulse ≤ period)
    (word : period < 2 ^ 32) (fits : (not is_32bit && ltb (65535 + 1) period) ≡ false)
    (narrow : leb pulse 65535 || is_32bit ≡ true) where
  reload_less_one : register_value is_32bit ((period + 2 ^ 32 - 1) % 2 ^ 32) ≡ period - 1
  reload_less_one = ground arith

  pulse_less_one : 1 ≤ pulse → register_value is_32bit ((pulse + 2 ^ 32 - 1) % 2 ^ 32) ≡ pulse - 1
  pulse_less_one h = ground arith

  pulse_kept : register_value is_32bit pulse ≡ pulse
  pulse_kept = ground arith

  reload_half : register_value is_32bit (period / 2) ≡ period / 2
  reload_half = ground arith

  pulse_half : register_value is_32bit (pulse / 2) ≡ pulse / 2
  pulse_half = ground arith

  up-Attains :
      waveform counter_up
        (register_value is_32bit ((period + 2 ^ 32 - 1) % 2 ^ 32))
        (register_value is_32bit pulse)
      ≡ (period, pulse)
  up-Attains =
      let below = count_values-below (λ v. ltb v pulse) pulse (λ v. refl) (period - 1 + 1) in
      rw (reload_less_one, pulse_kept) (ground (arith, below))

  down-Attains :
      1 ≤ pulse
      → waveform counter_down
          (register_value is_32bit ((period + 2 ^ 32 - 1) % 2 ^ 32))
          (register_value is_32bit ((pulse + 2 ^ 32 - 1) % 2 ^ 32))
        ≡ (period, pulse)
  down-Attains h =
      let below =
        count_values-below (λ v. not (ltb (pulse - 1) v)) pulse (λ v. ground arith)
          (period - 1 + 1) in
      rw (reload_less_one, pulse_less_one h) (ground (arith, below))

  center-Attains :
      waveform center_up
        (register_value is_32bit (period / 2))
        (register_value is_32bit (pulse / 2))
      ≡ (period / 2 * 2, pulse / 2 * 2)
  center-Attains =
      let rising =
        count_values-below (λ v. ltb v (pulse / 2)) (pulse / 2) (λ v. refl) (period / 2) in
      let falling =
        count_values-below (λ v. not (ltb (pulse / 2) (v + 1))) (pulse / 2) (λ v. ground arith)
          (period / 2) in
      rw (reload_half, pulse_half) (ground (arith, rising, falling))

  counted_cycles-Attains :
      (mode : CounterMode)
      → (mode ≡ counter_down → 1 ≤ pulse)
      → Attains is_32bit mode period pulse (counted_cycles mode period pulse)
  unfolding Attains counted_cycles
  counted_cycles-Attains counter_up h = up-Attains
  counted_cycles-Attains counter_down h = down-Attains (h refl)
  counted_cycles-Attains center_up h = center-Attains
  counted_cycles-Attains center_down h = center-Attains
  counted_cycles-Attains center_up_down h = center-Attains
  counted_cycles-Attains other_mode h = tt

Programs-output :
    (cfg : TimerConfig) (channel period pulse : ℕ) (counts : Option (ℕ × ℕ))
    (ws : List RegisterWrite)
    → Programs channel counts ws
    → Attains cfg.is_32bit cfg.countermode period pulse counts
    → output_of cfg channel ws ≡ some (attainable cfg.countermode period pulse)
unfolding Attains
Programs-output cfg channel period pulse none ws h a = absurd h
Programs-output cfg channel period pulse (some counts) ws h a =
    let same : (channel == channel) ≡ true = (==_iff channel channel).1 refl in
    rw (h.0, h.1, same) (ap some a)

-- If hw_timer_set_cycles succeeds for a period of at least 2 cycles (and below 2^32), the registers
-- it has written make the channel active for `pulse` cycles in each period of `period` cycles, both
-- rounded down to even numbers in the center-aligned modes; whether the channel ran before or not.
-- In COUNTERMODE_DOWN this is for a pulse of at least 1 cycle, and on a timer of 16 bits for a pulse
-- of at most 65535.
pub hw_timer_set_cycles-waveform :
    (cfg : TimerConfig) (reads : TimerReads) (channel period pulse : ℕ) (flags : TimerFlags)
    → 2 ≤ period
    → period < 2 ^ 32
    → (cfg.countermode ≡ counter_down → 1 ≤ pulse)
    → leb pulse 65535 || cfg.is_32bit ≡ true
    → (hw_timer_set_cycles cfg reads channel period pulse flags).0 ≡ timer_ok
    → output_of cfg channel (hw_timer_set_cycles cfg reads channel period pulse flags).1
      ≡ some (attainable cfg.countermode period pulse)
unfolding hw_timer_set_cycles
hw_timer_set_cycles-waveform cfg reads channel period pulse flags long word down narrow =
    let positive : (period == 0) ≡ false = ground arith in
    let counts = counted_cycles cfg.countermode period pulse in
    if_split
      (λ (x : TimerStatus × List RegisterWrite).
        x.0 ≡ timer_ok → output_of cfg channel x.1 ≡ some (attainable cfg.countermode period pulse))
      (ltb period pulse) (λ _ h. absurd (einval-ne-timer_ok h))
      (λ e h.
        Programs-output cfg channel period pulse counts _
          (hw_timer_stm32_set_cycles-Programs cfg reads channel period pulse flags positive h)
          (counted_cycles-Attains cfg.is_32bit period pulse long (ground arith) word
            (set_cycles-fits cfg reads channel period pulse flags positive h) narrow cfg.countermode
            down))
