-- ===== src/Print.antt =====
-- deps/gnea-grbl/grbl/print.c: decimal and binary output. Each function returns the bytes that it
-- passes to serial_write, in order.
mod Defs
pub mod Decimal
pub mod Fixed
unfoldable pub use Defs.*
