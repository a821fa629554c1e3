-- ===== src/Play.antt =====
-- src/routing/state_machine.rs: packets of the Play state, whose ids change with the version.
pub mod ChatCommand
pub mod TabCompleteRequest
pub mod TabCompleteResponse
pub mod Ids
pub mod Commands
pub mod CloseContainer
pub mod StopSound
pub mod BossBar
pub mod ScoreboardObjective
pub mod DisplayObjective
pub mod Resets
pub mod SystemChat
pub mod Respawn
pub mod DeclareCommands
mod Examples
mod StateExamples
