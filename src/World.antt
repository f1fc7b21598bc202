-- ===== src/World.antt =====
-- The state that the components share: the store, the queues of BlockingManager.ts, and what
-- config.ts and ReplicationManager.ts keep of the replicas, with everything that was written to a
-- connection.
mod Listeners
pub mod Executions
mod Replication
unfoldable pub use Listeners.*
unfoldable pub use Replication.*
