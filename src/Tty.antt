-- ===== src/Tty.antt =====
-- The page (static/tty.js): windows of tabs, each a terminal, over one socket.
mod State
pub mod Titles
pub mod Focus
pub mod Output
pub mod Sizes
pub mod Making
pub mod Ending
pub mod Socket
pub mod Callbacks
pub mod Wheel
pub mod Events
unfoldable pub use State.*
pub mod Replies
pub mod Loops
pub mod Stays
pub mod Focused
pub mod Registered
pub mod Typed
pub mod Screens
pub mod Resized
pub mod Kept
pub mod Whole
pub mod Runs
pub mod Reached
