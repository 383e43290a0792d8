-- ===== src/Tftp/Session.antt =====
-- The state of one end of a transfer: the external variables of tftp-exercises/server/initvars.c and
-- client/initvars_cli.c that the file, packet and socket routines read and write, with the
-- statics of file.c and net_udp.c.
use my_coding_exercises.Common.{ℕ, Bool, false, Option, List, [], Bytes}

-- What stands behind a `FILE *`: the bytes not yet read, those written, and whether the C library
-- reports an error on it. A read error shows once the bytes are used up.
pub record Stream : Type 0 where
  pub unread : Bytes
  pub written : Bytes
  pub is_stdout : Bool
  pub read_fails : Bool
  pub write_fails : Bool
  pub close_fails : Bool

-- `localfp` with the statics of file.c; `none` is the value -1 of `nextchar`.
pub record LocalFile : Type 0 where
  pub stream : Stream
  pub lastcr : Bool
  pub nextchar : Option ℕ

-- The sockets: whether `sendto` fails, the datagrams sent so far, the peer's port (0 before it is
-- known), and the statics of net_udp.c; `none` is the value -1 of `recv_nbytes`.
pub record Socket : Type 0 where
  pub send_fails : Bool
  pub sent : List Bytes
  pub peer_port : ℕ
  pub recv_first : Bool
  pub recv_nbytes : Option ℕ
  pub is_open : Bool

pub record Session : Type 0 where
  pub op_sent : ℕ
  pub op_recv : ℕ
  pub nextblknum : ℕ
  pub lastsend : ℕ
  pub totnbytes : ℕ
  pub modetype : ℕ
  pub sendbuff : Bytes
  pub sendlen : ℕ
  pub recvbuff : Bytes
  pub localfp : LocalFile
  pub socket : Socket
  -- The error packets that the client has printed: code and message.
  pub reports : List (ℕ × Bytes)

-- Stands for the null `localfp` of the start; every path opens a file before it uses one.
abbrev pub no_stream : Stream
no_stream = record {
  unread = [];
  written = [];
  is_stdout = false;
  read_fails = false;
  write_fails = false;
  close_fails = false;
}
