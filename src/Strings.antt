-- ===== src/Strings.antt =====
-- The commands of commands/simpleCommands that use the store alone and take any type of value.
mod Defs
mod Options
unfoldable pub use Options.*
unfoldable pub use Defs.*
pub mod Expiry
pub mod Counting
pub mod Cleaned
