-- ===== src/Tests.antt =====
-- Small worlds for the theorems of the other modules: one file, one request, and the two ends that
-- transfer it.
pub mod Transfers
pub mod Parts
pub mod Commands
pub mod Exchanges
pub mod Get
pub mod Rounds
pub mod Repeats
pub mod Sorting
pub mod Puts
pub mod Comm
pub mod Peotrix
use my_coding_exercises.Common.{ℕ, none, some, [], ◌∷◌, ◌++◌, Bytes, codes, true, false, replicate}
use my_coding_exercises.Tftp.Server.Send.{Os}
use my_coding_exercises.Tftp.Session.{Stream, LocalFile, Session, no_stream}
use my_coding_exercises.Tftp.Wire.{max_buff, op_rrq}

abbrev pub greeting : Bytes
greeting = codes "hi\n"

abbrev pub greeting_file : Stream
greeting_file = record no_stream { unread = greeting }

-- A system on which every name is the file `greeting`, which anybody can read and write.
abbrev pub disk : Os
disk = record { stat = λ name. some 438; fopen = λ name reading. some greeting_file }

abbrev pub idle_file : LocalFile
idle_file = record { stream = no_stream; lastcr = false; nextchar = none }

abbrev pub server : Session
server = record {
  op_sent = 0;
  op_recv = op_rrq;
  nextblknum = 0;
  lastsend = 0;
  totnbytes = 0;
  modetype = 0;
  sendbuff = replicate max_buff 0;
  sendlen = 0;
  recvbuff = replicate max_buff 0;
  localfp = idle_file;
  socket = record {
    send_fails = false;
    sent = [];
    peer_port = 1069;
    recv_first = false;
    recv_nbytes = none;
    is_open = true;
  };
  reports = [];
}

abbrev pub client : Session
client = record server {
  op_sent = op_rrq;
  nextblknum = 1;
  socket = record {
    send_fails = false;
    sent = [];
    peer_port = 69;
    recv_first = true;
    recv_nbytes = none;
    is_open = true;
  };
}

-- The strings of a read request for "/a" in netascii.
abbrev pub request : Bytes
request = codes "/a" ++ 0 ∷ (codes "netascii" ++ 0 ∷ [])
