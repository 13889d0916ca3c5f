-- ===== src/HwTimer.antt =====
-- The hardware timer of modules/hw_timer/zephyr: the driver interface and the STM32 driver.
mod Defs
pub mod Cycles
pub mod Registers
pub mod Waveform
unfoldable pub use Defs.*
