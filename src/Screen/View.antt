-- ===== src/Screen/View.antt =====
-- The scrolling handlers, and those that insert and delete lines, on the rows that the user sees.
mod Defs
pub mod Scroll
pub mod Rounds
pub mod History
pub use Defs.*
