-- ===== src/Tftp/Client.antt =====
-- The client, tftp-exercises/client/.
pub mod File
pub mod Net
pub mod Send
pub mod Fsm
pub mod Transfer
