-- ===== src/Streams.antt =====
-- XADD, XRANGE, XREVRANGE and XREAD: commands/streamCommands/, StreamEventManager.ts, and the functions on streams of
-- utilities.ts.
mod Ids
pub mod Numerals
pub mod Parts
pub mod Order
mod Entries
mod Readers
mod Commands
mod Xread
pub mod Kept
pub mod Added
pub mod Ranges
pub mod Waking
pub mod Odd
pub mod Shown
unfoldable pub use Ids.*
unfoldable pub use Entries.*
unfoldable pub use Readers.*
unfoldable pub use Commands.*
unfoldable pub use Xread.*
