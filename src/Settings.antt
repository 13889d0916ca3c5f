-- ===== src/Settings.antt =====
-- The configuration subsystem: deps/gnea-grbl/grbl/settings.c.
mod Data
mod Defs
pub mod Storing
pub mod Axes
unfoldable pub use Data.*
unfoldable pub use Defs.*
