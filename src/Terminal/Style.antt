-- ===== src/Terminal/Style.antt =====
-- `charAttributes` (static/term.js) against the attributes that the user sees.
mod Defs
pub mod Packed
pub use Defs.*
