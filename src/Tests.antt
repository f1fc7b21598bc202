-- ===== src/Tests.antt =====
-- The theorems at concrete inputs.
mod Data
mod Wire
mod Keys
mod Elements
mod Sessions
mod Subscribers
mod Files
mod Replicas
mod StreamEntries
mod Startup
mod Servers
mod Waiters
