-- ===== src/Events.antt =====
-- `EventEmitter` (static/term.js).
mod Emitter
pub mod Emit
unfoldable pub use Emitter.*
