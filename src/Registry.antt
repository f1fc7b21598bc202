-- ===== src/Registry.antt =====
-- registry/CommandRegistry.ts, and the constructor of Server.ts.
mod Defs
pub mod Depth
pub mod Pausing
pub mod Entries
pub mod Waiting
unfoldable pub use Defs.*
