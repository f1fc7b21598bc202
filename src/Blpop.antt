-- ===== src/Blpop.antt =====
-- BLPopCommand.ts
mod Defs
unfoldable pub use Defs.*
pub mod Waking
