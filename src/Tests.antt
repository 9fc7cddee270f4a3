-- ===== src/Tests.antt =====
-- Runs of the models on concrete inputs.
pub mod Data
mod Venues
mod Net
mod Command
mod Pool
mod Playback
mod Server
mod Buffers
mod Run
mod Config
mod Client
