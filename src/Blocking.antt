-- ===== src/Blocking.antt =====
-- services/BlockingManager.ts
mod Defs
pub mod Queued
pub mod Keeping
unfoldable pub use Defs.*
