-- ===== src/Storage.antt =====
-- The key/value backends of zendb-storage/src/backend.
pub mod Backend
pub mod State
pub mod KeyDir
