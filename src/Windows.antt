-- ===== src/Windows.antt =====
-- The windows of tabs (static/tty.js): the list of a window's tabs, and which one has the focus.
mod Tabs
pub mod Order
pub mod Focus
pub mod Closing
unfoldable pub use Tabs.*
