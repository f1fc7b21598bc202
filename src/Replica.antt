-- ===== src/Replica.antt =====
-- replication/MasterConnectionHandler.ts, replication/handshake.ts, PsyncCommand.ts and ReplconfCommand.ts.
mod Defs
mod Master
unfoldable pub use Defs.*
unfoldable pub use Master.*
mod Rounds
pub mod Following
pub mod Received
pub mod Agreement
pub mod Acks
pub mod Handshake
pub mod Converging
