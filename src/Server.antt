-- ===== src/Server.antt =====
-- The server (apps/server/src): each module below models one of its components.
pub mod Admission
pub mod Budget
pub mod Jobs
pub mod Uploads
pub mod FolderMigration
pub mod Safeguards
pub mod Generation
pub mod Canary
pub mod Rollout
pub mod Paths
pub mod Reserved
pub mod Manifest
pub mod Operations
pub mod Retirement
pub mod Containment
pub mod Compatibility
