-- ===== src/Mouse.antt =====
-- The mouse (static/term.js, `bindMouse`): from the events of the browser to the texts that are sent.
pub mod Buttons
pub mod Bytes
pub mod Reports
pub mod Listeners
pub mod Reader
pub mod Heard
pub mod Clicks
pub mod Tracking
