-- ===== src/Login.antt =====
-- src/protocol/login.rs: the packets of the Login state, one module each.
pub mod Start
pub mod EncryptionRequest
pub mod EncryptionResponse
pub mod Success
pub mod Acknowledged
mod Examples
