-- ===== src/Dispatch.antt =====
-- SOLIDDispatcher.ts
mod Defs
unfoldable pub use Defs.*
pub mod Propagation
