-- ===== src/Waiters.antt =====
-- The queues of services/BlockingManager.ts hold a waiter only under keys that it waits for, with every command.
mod Entries
mod Commands
pub mod Reached
