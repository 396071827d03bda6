-- ===== src/Tests.antt =====
-- The theorems at concrete inputs, over a store in memory.
pub mod Memory
pub mod Data
pub mod Writes
pub mod Events
pub mod Answers
pub mod Effects
pub mod Stream
pub mod Messaging
pub mod Boot
pub mod Queries
pub mod Rbac
pub mod Concurrent
pub mod Routes
pub mod Clients
pub mod Backfill
pub mod Command
