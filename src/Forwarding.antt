-- ===== src/Forwarding.antt =====
-- src/protocol/forwarding.rs: how a backend learns who the player is.
pub mod PluginRequest
pub mod PluginResponse
pub mod Payload
pub mod Dispatch
mod Examples
