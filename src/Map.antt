-- ===== src/Map.antt =====
-- `std::collections::BTreeMap` (and `BTreeSet`, a map to `Unit`), as the CRDT values of
-- zendb-types use it: an association list in ascending key order.
mod Defs
mod Sorted
pub mod Merge
unfoldable pub use Defs.*
pub use Sorted.*
