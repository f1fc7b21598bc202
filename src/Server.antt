-- ===== src/Server.antt =====
-- Server.ts: what a connection does with the bytes that arrive.
mod Defs
mod Connections
mod Events
unfoldable pub use Defs.*
unfoldable pub use Events.*
unfoldable pub use Connections.*
pub mod Pipeline
pub mod Progress
pub mod Twice
pub mod Others
pub mod Start
