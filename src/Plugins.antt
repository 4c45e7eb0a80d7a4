-- ===== src/Plugins.antt =====
-- The plugins that the control plane supervises (internal/snispoof, internal/relay).
pub mod Listen
pub mod Spoof
pub mod Agree
pub mod Relay
pub mod Rendered
pub mod Child
pub mod Wanted
pub mod Lines
