-- ===== src/Terminal/Sequences.antt =====
-- `write` (static/term.js) on whole control sequences and strings.
pub mod Chunks
pub mod Params
pub mod Plain
pub mod Positions
pub mod Titles
