-- ===== src/Plugin.antt =====
-- The plugin (plugin/src): each module below models one of its components.
pub mod BodyCache
pub mod Recovery
pub mod Compatibility
pub mod Live
pub mod Status
pub mod Settings
