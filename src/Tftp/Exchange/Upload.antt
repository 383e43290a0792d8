-- ===== src/Tftp/Exchange/Upload.antt =====
-- The put command: the client (client/fsm_cli.c, sendrecv_cli.c) sends a file that the server writes
-- (server/fsm.c, sendrecv.c), over the same network.
pub mod Same
pub mod Gives
pub mod Stores
pub mod Steps
pub mod Begin
pub mod Whole
pub mod Put
