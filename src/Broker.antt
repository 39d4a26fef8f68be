-- ===== src/Broker.antt =====
-- internal/resource/broker_queue.go: the backlogs of queue and topic services.
pub mod Shard
pub mod Commit
pub mod Registry
mod Examples
