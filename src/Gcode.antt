-- ===== src/Gcode.antt =====
-- The g-code parser: deps/gnea-grbl/grbl/gcode.c and gcode.h.
mod Bits
mod Codes
mod Defs
mod CommandWords
mod Words
mod Checks
mod NonModal
mod MotionModes
mod Checking
mod Effects
mod Execute
mod Motions
mod Running
mod Results
pub mod Groups
pub mod OnePerGroup
pub mod OncePerLetter
pub mod Accepted
pub mod Rejected
pub mod Modes
pub mod ValidModes
pub mod ModeInvariant
pub mod CheckedModes
pub mod LineModes
pub mod OneAxisCommand
pub mod Jogged
pub mod Fuel
pub mod Stored
pub mod Homes
pub mod Arrivals
pub mod Positions
unfoldable pub use Bits.*
pub use Codes.*
pub use Defs.*
unfoldable pub use CommandWords.*
unfoldable pub use Words.*
unfoldable pub use Checks.*
unfoldable pub use NonModal.*
unfoldable pub use MotionModes.*
unfoldable pub use Checking.*
unfoldable pub use Effects.*
unfoldable pub use Execute.*
unfoldable pub use Motions.*
unfoldable pub use Running.*
