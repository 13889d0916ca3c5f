-- ===== src/Serial.antt =====
-- deps/gnea-grbl/grbl/serial.c: the byte stream between grbl, the UART and the SD card.
mod Command
mod Writing
pub mod Responses
unfoldable pub use Command.*
unfoldable pub use Writing.*
