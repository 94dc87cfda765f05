-- ===== src/Screen/Cells.antt =====
-- The erasing handlers on the cells that the user sees.
mod Defs
mod Places
pub mod Erased
pub mod Shifted
pub mod Printed
pub mod Changed
pub mod Rectangles
pub use Defs.*
