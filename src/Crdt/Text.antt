-- ===== src/Crdt/Text.antt =====
-- zendb-types/src/crdt/values/text.rs: a sequence of characters, each identified by the stamp of its
-- insertion and its offset in it, with formatting attributes.
pub mod Defs
pub mod Apply
pub mod Merge
pub mod Query
pub mod Entry
pub mod Convergence
