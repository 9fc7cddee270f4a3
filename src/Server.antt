-- ===== src/Server.antt =====
-- server/bse_server.h and bse_server.cpp: class BSESimulator, which derives from EpollNetTcpServer.
pub mod State
pub mod Config
pub mod Files
pub mod Process
pub mod Playback
pub mod Commands
pub mod Console
pub mod Run
