-- ===== src/Tcp.antt =====
-- network/tcp-server.cpp: a TCP server and its sessions.
pub mod Session
pub mod Server
