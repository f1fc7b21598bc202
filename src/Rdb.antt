-- ===== src/Rdb.antt =====
-- persistence/RDBWriter.ts, persistence/RDBParser.ts, SaveCommand.ts and `loadRDB` of Server.ts.
mod Words
mod Writer
mod Reader
mod Disk
unfoldable pub use Words.*
unfoldable pub use Writer.*
unfoldable pub use Reader.*
unfoldable pub use Disk.*
pub mod Strings
pub mod Pairs
pub mod RoundTrip
pub mod Leaves
pub mod Ends
