-- ===== src/Peotrix.antt =====
-- Peotrix_nginx/src/core: the routines on times (ptrx_times.c) and on texts (ptrx_string.c).
pub mod Times
pub mod Buffer
pub mod Number
pub mod Printf
