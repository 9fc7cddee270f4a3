-- ===== src/Client.antt =====
-- client/bse_client.h and bse_client.cpp: class BSEClient, which derives from EpollNetTcpClient.
pub mod State
pub mod Process
pub mod Config
pub mod Login
pub mod Handshake
pub mod Journal
pub mod Reply
pub mod Stream
pub mod Main
