-- ===== src/Wait.antt =====
-- WaitCommand.ts.
mod Defs
unfoldable pub use Defs.*
pub mod Listening
pub mod Counting
