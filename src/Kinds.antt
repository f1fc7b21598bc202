-- ===== src/Kinds.antt =====
-- The values of the store have the form that their type says: store/RedisStore.ts with every command that writes.
mod Defs
mod Keys
mod Elements
mod Entries
mod Files
mod Commands
pub mod Sessions
pub mod Reached
pub mod Replies
unfoldable pub use Defs.*
unfoldable pub use Elements.*
unfoldable pub use Entries.*
unfoldable pub use Files.*
unfoldable pub use Commands.*
unfoldable pub use Keys.*
