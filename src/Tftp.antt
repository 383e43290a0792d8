-- ===== src/Tftp.antt =====
-- The TFTP programs of tftp-exercises/.
pub mod Run
pub mod Wire
pub mod Session
pub mod Netascii
pub mod Server
pub mod Real
pub mod Rtt
pub mod Client
pub mod Shell
pub mod Exchange
