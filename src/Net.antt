-- ===== src/Net.antt =====
-- epoll_net.h and epoll_net.cpp: the network library. The children follow the classes: `State` the
-- registry of class EpollNet, `Socket` what the library asks of the kernel, `Read`, `Write` the two
-- handlers and `send_data` of class EpollNetTcp.
pub mod State
pub mod Socket
pub mod Framing
pub mod Read
pub mod Write
pub mod Events
pub mod Command
pub mod Setup
pub mod Run
