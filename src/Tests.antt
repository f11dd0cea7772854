-- ===== src/Tests.antt =====
-- Runs of the modelled code on concrete inputs, and instances of the theorems there.
mod Stamps
mod Sets
mod Counters
mod OrSets
mod Queues
mod Topics
mod Tables
mod Registers
mod Cells
mod Lists
mod Texts
mod KeyDirs
mod Backends
mod States
mod Proxies
mod Workspaces
