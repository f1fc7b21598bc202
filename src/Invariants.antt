-- ===== src/Invariants.antt =====
-- What holds of the world and is kept by every command is kept by EXEC, by SOLIDDispatcher.ts and by the server.
mod Defs
unfoldable pub use Defs.*
pub mod Exec
pub mod Dispatched
pub mod Reached
