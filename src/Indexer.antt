-- ===== src/Indexer.antt =====
-- The crate `indexer`: its data, the interface of the crates that it calls, the parsers.
pub mod Types
pub mod Sdk
pub mod Proto
pub mod StateUpdate
pub mod Parser
pub mod Poller
pub mod Fallback
pub mod Subscription
pub mod Display
pub mod Db
pub mod Messenger
pub mod Streamer
pub mod Main
pub mod Delivery
