-- ===== src/Number.antt =====
-- read_float (deps/gnea-grbl/grbl/nuts_bolts.c): decimal numbers in g-code and settings lines.
mod Defs
pub mod Scanning
pub mod Roundtrip
unfoldable pub use Defs.*
