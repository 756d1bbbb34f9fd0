-- ===== src/Storage.antt =====
-- src/relayer/src/storage: the store of messages.
pub mod Adapter
pub mod Sorting
pub mod Memory
pub mod Ascending
pub mod Invariant
pub mod Ordering
pub mod Writing
pub mod Outcomes
pub mod Preservation
pub mod Counting
pub mod Counters
pub mod Paging
pub mod Creation
pub mod Interleaving
pub mod Freshness
pub mod Soundness
