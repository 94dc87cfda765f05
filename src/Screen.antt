-- ===== src/Screen.antt =====
-- The screen of a terminal (static/term.js): the buffer of lines with its scrollback, the cursor,
-- the scroll region and the tab stops, which are the fields of `Terminal` that the cursor and
-- editing handlers work on.
mod Buffer
pub mod Tabs
pub mod Erase
pub mod Scroll
pub mod Lines
pub mod Cursor
pub mod Chars
pub mod Size
pub mod Rectangles
pub mod Valid
pub mod Stops
pub mod Cells
pub mod Faults
pub mod View
unfoldable pub use Buffer.*
