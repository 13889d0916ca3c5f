-- ===== src/Tests/TimerTests.antt =====
-- The hardware timer at concrete inputs: a timer of 16 bits that counts up at 1 MHz.
use zephyr_grbl.Prelude.{ltb, if◌then◌else◌, ◌-◌, ◌^◌, ◌≡◌, refl, true, false, some, [], arith}
use zephyr_grbl.HwTimer.{
  hw_timer_set_cycles, TimerConfig, TimerFlags, TimerReads, counted_cycles, program_output,
  set_counts, hw_timer_stm32_set_cycles, hw_timer_set, counter_up, polarity_high, enotsup,
}
use zephyr_grbl.HwTimer.Waveform.{output_of, hw_timer_set_cycles-waveform}
use zephyr_grbl.HwTimer.Cycles.{hw_timer_set_lem}

abbrev tim3 : TimerConfig
tim3 = record {
  timer_max_ch = 4;
  complementary_channels = 3;
  is_32bit = false;
  prescaler = 83;
  countermode = counter_up;
}

-- No output runs.
abbrev idle_reads : TimerReads
idle_reads = record {
  is_enabled = λ c. false;
  polarity_of = λ c. polarity_high;
  init_succeeds = true;
}

abbrev plain_output : TimerFlags
plain_output = record { inverted = false; on_complementary = false }

hw_timer_set_cycles-waveform_example :
    output_of tim3 2 (hw_timer_set_cycles tim3 idle_reads 2 1000 10 plain_output).1
    ≡ some (1000, 10)
unfolding hw_timer_set_cycles hw_timer_stm32_set_cycles set_counts program_output counted_cycles
hw_timer_set_cycles-waveform_example =
    hw_timer_set_cycles-waveform tim3 idle_reads 2 1000 10 plain_output (omega arith) (omega arith)
      (λ _. omega arith) refl refl

-- 1 ms and 10 us at 1 MHz.
hw_timer_set_lem_example : hw_timer_set tim3 idle_reads 84000000 2 1000000 10000 plain_output ≡ (
    if ltb (2 ^ 32 - 1) 1000
    then (enotsup, [])
    else hw_timer_stm32_set_cycles tim3 idle_reads 2 1000 10 plain_output)
hw_timer_set_lem_example =
    hw_timer_set_lem tim3 idle_reads 84000000 2 1000000 10000 plain_output (omega arith)
      (omega arith) (omega arith) (omega arith)
