-- ===== src/Commands.antt =====
-- system_execute_line (deps/gnea-grbl/grbl/system.c, lines 128 to 281): the '$' commands.
mod Defs
pub mod Gate
unfoldable pub use Defs.*
