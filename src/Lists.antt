-- ===== src/Lists.antt =====
-- The list commands of commands/simpleCommands.
mod Defs
unfoldable pub use Defs.*
pub mod Pushing
pub mod Forgotten
pub mod Popping
pub mod Ranges
