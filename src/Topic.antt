-- ===== src/Topic.antt =====
-- The persistent topic (zendb-storage/src/topic.rs): an append-only log in segment files, and its
-- named consumers.
pub mod Frame
pub mod State
