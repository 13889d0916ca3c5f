-- ===== src/Stepper.antt =====
-- The stepper driver interrupt: deps/gnea-grbl/grbl/stepper.c.
mod Tracer
mod Defs
mod Isr
pub mod PinMasks
pub mod Pulses
pub mod Segments
pub mod Runs
pub mod Loads
pub mod Moves
unfoldable pub use Tracer.*
pub use Defs.*
unfoldable pub use Isr.*
