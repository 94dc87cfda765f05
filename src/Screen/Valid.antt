-- ===== src/Screen/Valid.antt =====
-- The invariant of the screen (static/term.js), and the handlers on it.
pub mod Scrolls
pub mod Lasting
pub mod Rows
pub mod Moves
pub mod Sizes
pub mod Drawn
mod Defs
pub use Defs.*
