-- ===== src/Terminal/Valid.antt =====
-- The invariant of the terminal (static/term.js), and the operations on it.
mod Defs
pub mod Switches
pub mod Commands
pub mod Steps
pub mod Writes
pub use Defs.*
