-- ===== src/Server/Operations.antt =====
-- apps/server/src/operation-state.ts: the authoritative tree of a vault and the operations on it.
pub mod Ledger
pub mod Apply
pub mod Batch
pub mod Identity
pub mod Fence
pub mod Results
pub mod Tree
pub mod Tests
