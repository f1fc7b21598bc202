-- ===== src/Transaction.antt =====
-- MultiCommand.ts, DiscardCommand.ts and ExecCommand.ts.
mod Defs
unfoldable pub use Defs.*
pub mod Isolation
pub mod Replies
pub mod Formats
