-- ===== src/Tftp/Server.antt =====
-- The server, tftp-exercises/server/.
pub mod File
pub mod Net
pub mod Send
pub mod Fsm
pub mod Access
pub mod Retry
