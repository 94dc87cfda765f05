-- ===== src/Rendering.antt =====
-- The rows of the page (static/term.js): how `refresh` writes a line of the buffer as HTML.
pub mod Colors
pub mod Rows
pub mod Refresh
pub mod Reader
pub mod Quotes
pub mod ReadBack
pub mod Repainted
pub mod Written
pub mod Thrown
