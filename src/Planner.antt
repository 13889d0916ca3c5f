-- ===== src/Planner.antt =====
-- The look-ahead planner, deps/gnea-grbl/grbl/planner.c: the ring of motion blocks.
mod Ring
pub mod Valid
pub mod Fifo
pub mod Speeds
pub mod Feasible
pub mod Vectors
pub mod Line
pub mod Limits
pub mod Settled
pub mod Optimal
pub mod Moves
pub mod Queued
pub mod Profiles
pub mod Reinitialize
pub mod Reverse
pub mod Forward
pub mod Fastest
unfoldable pub use Ring.*
