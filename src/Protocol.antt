-- ===== src/Protocol.antt =====
-- The shared protocol package (packages/protocol/src): one module for each part of it.
pub mod Model
pub mod Operations
pub mod Host
pub mod Reconcile
pub mod Cooperative
pub mod JsonMerge
pub mod Moves
pub mod TextMerge
pub mod ServerStatus
