-- ===== src/Xray.antt =====
-- The configuration that Xray runs with (internal/xray/generate.go), generated from `Config`.
pub mod Inbounds
pub mod Outbounds
pub mod Rules
pub mod Generate
pub mod Ports
pub mod Routes
pub mod Clients
