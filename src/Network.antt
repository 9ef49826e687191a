-- ===== src/Network.antt =====
-- Network.cpp and Session.cpp: the connections, and how bytes come in and go out.
--
-- What the operating system answers is an argument: `RecvResult` of `WSARecv`, `SendResult` of
-- `WSASend`, and so on; so is the memory that the pools hand out. The layer above is known by its
-- three callbacks.
pub mod Callbacks
pub mod Startup
pub mod Sessions
pub mod Transfer
pub mod Game
pub mod Loop
