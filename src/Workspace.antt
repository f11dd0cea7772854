-- ===== src/Workspace.antt =====
-- The workspace of zendb-workspace/src.
pub mod Receipts
