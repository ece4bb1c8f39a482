-- ===== src/EventWatcher.antt =====
-- event-watcher/src: the events of a contract, polled from a node, and the store of the blocks that were seen.
pub mod EventDb
pub mod Fetcher
pub mod Resume
pub mod Delivery
