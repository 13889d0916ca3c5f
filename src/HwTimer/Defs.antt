-- ===== src/HwTimer/Defs.antt =====
-- hw_timer_stm32.c and the functions of hw_timer.h. The registers are reached through the LL_TIM
-- calls of the vendor's library: what is read of them is a parameter, what is written is recorded.
-- The channels of the chip and its 32-bit timers are fields of the configuration.
use zephyr_grbl.Prelude.{
  ltb, leb, ◌==◌, if◌then◌else◌, ℕ, ◌+◌, ◌-◌, ◌*◌, ◌/◌, ◌%◌, ◌^◌, Bool, true, not, ◌&&◌, ◌||◌,
  Option, none, some, List, [], ◌∷◌,
}

-- A channel of the LL library: an output or its complementary output.
pub data LlChannel : Type 0 where
  direct : ℕ → LlChannel
  complementary : ℕ → LlChannel

pub data CounterMode : Type 0 where
  counter_up : CounterMode
  counter_down : CounterMode
  center_up : CounterMode
  center_down : CounterMode
  center_up_down : CounterMode
  other_mode : CounterMode

pub data Polarity : Type 0 where
  polarity_high : Polarity
  polarity_low : Polarity

-- TIMER_MAX_CH, ARRAY_SIZE(ch2ll_n) and IS_TIM_32B_COUNTER_INSTANCE, with hw_timer_stm32_config
pub record TimerConfig : Type 0 where
  pub timer_max_ch : ℕ
  pub complementary_channels : ℕ
  pub is_32bit : Bool
  pub prescaler : ℕ
  pub countermode : CounterMode

-- hw_timer_flags_t: HW_TIMER_POLARITY_INVERTED and STM32_HW_TIMER_COMPLEMENTARY
pub record TimerFlags : Type 0 where
  pub inverted : Bool
  pub on_complementary : Bool

-- LL_TIM_CC_IsEnabledChannel, LL_TIM_OC_GetPolarity, and whether LL_TIM_OC_Init succeeds
pub record TimerReads : Type 0 where
  pub is_enabled : LlChannel → Bool
  pub polarity_of : LlChannel → Polarity
  pub init_succeeds : Bool

-- LL_TIM_OC_InitTypeDef: whether the output and the complementary output are enabled, and their
-- polarities; `none` is the value of LL_TIM_OC_StructInit.
pub record OcInit : Type 0 where
  pub oc_state : Bool
  pub oc_polarity : Polarity
  pub ocn : Option (Bool × Polarity)
  pub compare_value : ℕ

pub data RegisterWrite : Type 0 where
  disable_channel : LlChannel → RegisterWrite
  oc_init : LlChannel → OcInit → RegisterWrite
  enable_arr_preload : RegisterWrite
  oc_enable_preload : LlChannel → RegisterWrite
  set_auto_reload : ℕ → RegisterWrite
  generate_event_update : RegisterWrite
  set_polarity : LlChannel → Polarity → RegisterWrite
  set_compare : ℕ → ℕ → RegisterWrite

pub data TimerStatus : Type 0 where
  timer_ok : TimerStatus
  einval : TimerStatus
  enotsup : TimerStatus
  eio : TimerStatus

unfoldable pub get_polarity : TimerFlags → Polarity
get_polarity flags = if flags.inverted then polarity_low else polarity_high

-- The adjustment of period_cycles and pulse_cycles to the counter mode, on uint32_t; `none` is
-- -ENOTSUP.
unfoldable pub counted_cycles : CounterMode → ℕ → ℕ → Option (ℕ × ℕ)
counted_cycles counter_up period pulse = some ((period + 2 ^ 32 - 1) % 2 ^ 32, pulse)
counted_cycles counter_down period pulse =
    some ((period + 2 ^ 32 - 1) % 2 ^ 32, (pulse + 2 ^ 32 - 1) % 2 ^ 32)
counted_cycles center_up period pulse = some (period / 2, pulse / 2)
counted_cycles center_down period pulse = some (period / 2, pulse / 2)
counted_cycles center_up_down period pulse = some (period / 2, pulse / 2)
counted_cycles other_mode period pulse = none

-- oc_init for a channel that is not enabled
unfoldable pub initial_output : TimerReads → TimerFlags → ℕ → Bool → ℕ → OcInit
unfolding get_polarity
initial_output reads flags channel has_negative pulse =
    if flags.on_complementary
    then record {
      oc_state = reads.is_enabled (direct channel);
      oc_polarity = reads.polarity_of (direct channel);
      ocn = some (true, get_polarity flags);
      compare_value = pulse;
    }
    else record {
      oc_state = true;
      oc_polarity = get_polarity flags;
      ocn =
          if has_negative
          then some
              (reads.is_enabled (complementary channel), reads.polarity_of (complementary channel))
          else none;
      compare_value = pulse;
    }

-- The registers for the counts that the mode asks for: a new output, or one that runs.
unfoldable pub program_output :
    TimerReads → TimerFlags → ℕ → LlChannel → Bool → ℕ → ℕ → TimerStatus × List RegisterWrite
unfolding initial_output get_polarity
program_output reads flags channel current has_negative period pulse =
    let init : RegisterWrite =
      oc_init (direct channel) (initial_output reads flags channel has_negative pulse) in
    if reads.is_enabled current
    then (
      timer_ok,
      set_polarity current (get_polarity flags)
          ∷ set_compare channel pulse
          ∷ set_auto_reload period
          ∷ [],
    )
    else if reads.init_succeeds
    then (
      timer_ok,
      init
          ∷ enable_arr_preload
          ∷ oc_enable_preload (direct channel)
          ∷ set_auto_reload period
          ∷ generate_event_update
          ∷ [],
    )
    else (eio, init ∷ [])

-- The counter mode is looked at before the registers.
unfoldable pub set_counts :
    TimerReads
    → ℕ
    → TimerFlags
    → LlChannel
    → Bool
    → Option (ℕ × ℕ)
    → TimerStatus × List RegisterWrite
unfolding program_output
set_counts reads channel flags current has_negative none = (enotsup, [])
set_counts reads channel flags current has_negative (some counts) =
    program_output reads flags channel current has_negative counts.0 counts.1

unfoldable pub hw_timer_stm32_set_cycles :
    TimerConfig → TimerReads → ℕ → ℕ → ℕ → TimerFlags → TimerStatus × List RegisterWrite
unfolding set_counts counted_cycles
hw_timer_stm32_set_cycles cfg reads channel period pulse flags =
    let has_negative : Bool = leb channel cfg.complementary_channels in
    let current : LlChannel =
      if flags.on_complementary then complementary channel else direct channel in
    if ltb channel 1 || ltb cfg.timer_max_ch channel
    then (einval, [])
    else if not cfg.is_32bit && ltb (65535 + 1) period
    then (enotsup, [])
    else if flags.on_complementary && not has_negative
    then (einval, [])
    else if period == 0
    then (timer_ok, disable_channel current ∷ [])
    else set_counts reads channel flags current has_negative
        (counted_cycles cfg.countermode period pulse)

-- hw_timer_stm32_get_cycles_per_sec: `tim_clk` is data->tim_clk, and prescaler + 1 is on uint32_t.
unfoldable pub hw_timer_get_cycles_per_sec : TimerConfig → ℕ → ℕ
hw_timer_get_cycles_per_sec cfg tim_clk = tim_clk / ((cfg.prescaler + 1) % 2 ^ 32)

-- z_impl_hw_timer_set_cycles
unfoldable pub hw_timer_set_cycles :
    TimerConfig → TimerReads → ℕ → ℕ → ℕ → TimerFlags → TimerStatus × List RegisterWrite
hw_timer_set_cycles cfg reads channel period pulse flags =
    if ltb period pulse
    then (einval, [])
    else hw_timer_stm32_set_cycles cfg reads channel period pulse flags

abbrev pub nsec_per_sec : ℕ
nsec_per_sec = 1000000000

-- hw_timer_set: the products are on uint64_t. The driver's get_cycles_per_sec returns no error.
unfoldable pub hw_timer_set :
    TimerConfig → TimerReads → ℕ → ℕ → ℕ → ℕ → TimerFlags → TimerStatus × List RegisterWrite
hw_timer_set cfg reads tim_clk channel period pulse flags =
    let cycles_per_sec : ℕ = hw_timer_get_cycles_per_sec cfg tim_clk in
    let period_cycles : ℕ = period * cycles_per_sec % 2 ^ 64 / nsec_per_sec in
    let pulse_cycles : ℕ = pulse * cycles_per_sec % 2 ^ 64 / nsec_per_sec in
    if ltb (2 ^ 32 - 1) period_cycles
    then (enotsup, [])
    else if ltb (2 ^ 32 - 1) pulse_cycles
    then (enotsup, [])
    else hw_timer_set_cycles cfg reads channel period_cycles pulse_cycles flags
