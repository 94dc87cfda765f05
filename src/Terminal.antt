-- ===== src/Terminal.antt =====
-- The terminal emulator (static/term.js): `Terminal` with its parser of control sequences.
mod State
pub mod Charset
pub mod Attr
pub mod Modes
pub mod Report
pub mod Esc
pub mod Csi
pub mod Strings
pub mod Write
pub mod Keys
pub mod Style
pub mod Sequences
pub mod Alternate
pub mod Answers
pub mod Valid
pub mod Typing
unfoldable pub use State.*
