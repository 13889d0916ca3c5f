-- ===== src/HwTimer/Cycles.antt =====
-- The conversion of a period and a pulse from nanoseconds to cycles in hw_timer_set (hw_timer.h).
use native.Mathlib.Nat.{mod-eq_of_lt, mul-le-mul, mul-le-mul_right, div-le_self}
use zephyr_grbl.Prelude.{
  ltb, if◌then◌else◌, ℕ, ◌+◌, ◌-◌, ◌*◌, ◌/◌, ◌%◌, ◌^◌, ◌≤◌, ◌<◌, ◌≡◌, ap, [], arith,
}
use zephyr_grbl.HwTimer.Defs.{
  TimerConfig, TimerFlags, TimerReads, hw_timer_stm32_set_cycles, hw_timer_get_cycles_per_sec,
  hw_timer_set_cycles, nsec_per_sec, hw_timer_set, enotsup,
}

-- The cycles of `f` hertz in a time of nanoseconds, rounded down.
abbrev pub cycles_in : ℕ → ℕ → ℕ
cycles_in f nanoseconds = nanoseconds * f / nsec_per_sec

cycles-no_wrap : (f n : ℕ) → f < 2 ^ 32 → n < 2 ^ 32 → n * f % 2 ^ 64 / nsec_per_sec ≡ cycles_in f n
cycles-no_wrap f n hf hn =
    let le : n * f ≤ (2 ^ 32 - 1) * (2 ^ 32 - 1) =
      mul-le-mul {n₂ = 2 ^ 32 - 1} {m₂ = 2 ^ 32 - 1} (omega arith) (omega arith) in
    ap (λ x. x / nsec_per_sec) (mod-eq_of_lt {m = 2 ^ 64} (omega arith))

cycles_monotone : (f m n : ℕ) → m ≤ n → cycles_in f m ≤ cycles_in f n
cycles_monotone f m n h = let le : m * f ≤ n * f = mul-le-mul_right f h in omega arith

-- hw_timer_set at a known number of cycles per second.
set_at :
    (cfg : TimerConfig) (reads : TimerReads) (f channel period pulse : ℕ) (flags : TimerFlags)
    → f < 2 ^ 32
    → period < 2 ^ 32
    → pulse ≤ period
    → (if ltb (2 ^ 32 - 1) (period * f % 2 ^ 64 / nsec_per_sec)
        then (enotsup, [])
        else if ltb (2 ^ 32 - 1) (pulse * f % 2 ^ 64 / nsec_per_sec)
        then (enotsup, [])
        else hw_timer_set_cycles cfg reads channel
            (period * f % 2 ^ 64 / nsec_per_sec)
            (pulse * f % 2 ^ 64 / nsec_per_sec)
            flags)
      ≡ (if ltb (2 ^ 32 - 1) (cycles_in f period)
          then (enotsup, [])
          else hw_timer_stm32_set_cycles cfg reads channel
              (cycles_in f period)
              (cycles_in f pulse)
              flags)
unfolding hw_timer_set_cycles
set_at cfg reads f channel period pulse flags hf hn hle =
    let le : cycles_in f pulse ≤ cycles_in f period = cycles_monotone f pulse period hle in
    rw (cycles-no_wrap f period hf hn) (rw (cycles-no_wrap f pulse hf (omega arith)) (ground arith))

-- For a timer clock and times of 32 bits, a prescaler below 2^32 - 1 and a pulse that is not longer
-- than the period: hw_timer_set gives the driver the cycles of both times, rounded down, with no
-- wrap-around of the 64-bit products; or it returns ENOTSUP, exactly if the period has more cycles
-- than 32 bits hold.
pub hw_timer_set_lem :
    (cfg : TimerConfig) (reads : TimerReads) (tim_clk channel period pulse : ℕ) (flags : TimerFlags)
    → tim_clk < 2 ^ 32
    → cfg.prescaler < 2 ^ 32 - 1
    → period < 2 ^ 32
    → pulse ≤ period
    → hw_timer_set cfg reads tim_clk channel period pulse flags ≡ (
        let f : ℕ = tim_clk / (cfg.prescaler + 1) in
        if ltb (2 ^ 32 - 1) (cycles_in f period)
        then (enotsup, [])
        else hw_timer_stm32_set_cycles cfg reads channel
            (cycles_in f period)
            (cycles_in f pulse)
            flags)
unfolding hw_timer_set hw_timer_set_cycles hw_timer_get_cycles_per_sec
hw_timer_set_lem cfg reads tim_clk channel period pulse flags hc hp hn hle =
    let in_32 : tim_clk / (cfg.prescaler + 1) < 2 ^ 32 =
      omega (arith, div-le_self tim_clk (cfg.prescaler + 1)) in
    rw (mod-eq_of_lt {n = cfg.prescaler + 1} {m = 2 ^ 32} (omega arith))
      (set_at cfg reads (tim_clk / (cfg.prescaler + 1)) channel period pulse flags in_32 hn hle)
