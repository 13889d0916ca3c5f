-- ===== src/System.antt =====
-- The global state of grbl: deps/gnea-grbl/grbl/system.h, the variables of main.c, and the flag
-- setters of system.c. The calls into parts whose state is not in `Machine` (reports, the stepper
-- and the g-code parser) are recorded in order.
pub mod Masks
pub mod Exec
mod Defs
unfoldable pub use Defs.*
