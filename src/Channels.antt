-- ===== src/Channels.antt =====
-- SubscriptionManager.ts, SubscribeCommand.ts, UnsubscribeCommand.ts, PublisCommand.ts and PingCommand.ts.
mod Defs
unfoldable pub use Defs.*
pub mod Sets
pub mod Agreement
pub mod Delivery
pub mod Sessions
pub mod Messages
