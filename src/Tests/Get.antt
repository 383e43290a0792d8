-- ===== src/Tests/Get.antt =====
-- A `get` of the small file, from the command to the end of both loops.
use my_coding_exercises.Common.{
  inl, ℕ, ◌*◌, ◌<◌, ◌≡◌, some, false, true, [], ◌∷◌, refl, Bytes, Bool, Option, codes, length, drop,
  overlay, arith, same_text,
}
use my_coding_exercises.Tests.{greeting, disk, server, client, request}
use my_coding_exercises.Tests.Parts.{whole, timer}
use my_coding_exercises.Tests.Transfers.{answered, server-Fresh, disk_reads}
use my_coding_exercises.Tftp.Client.Fsm.{Machine, rounds}
use my_coding_exercises.Tftp.Client.Transfer.{finish, do_get}
use my_coding_exercises.Tftp.Exchange.Download.{System}
use my_coding_exercises.Tftp.Exchange.Get.{Ready, Asking, do_get-Asking, Asking-ends}
use my_coding_exercises.Tftp.Exchange.Lossless.{lossless}
use my_coding_exercises.Tftp.Netascii.{network_form}
use my_coding_exercises.Tftp.Run.{ok, more, done, ◌>>=◌}
use my_coding_exercises.Tftp.Server.Access.{Names}
use my_coding_exercises.Tftp.Server.File.{file_open, file_read, read_ascii}
use my_coding_exercises.Tftp.Server.Net.{net_send}
use my_coding_exercises.Tftp.Server.Send.{
  request_strings, recv_rrq, recv_xrq, find_nul, set_mode, strlccpy, check_name, check_access,
  open_request, recv_ack, accept_ack, send_data,
}
use my_coding_exercises.Tftp.Session.{Session, Stream, no_stream}
use my_coding_exercises.Tftp.Wire.{max_data, mode_ascii}

-- Every file that the client opens is new.
abbrev new_files : Bytes → Bool → Option Stream
new_files name reading = some no_stream

abbrev pub machine : Machine whole
machine = record { session = client; rttinfo = timer; rttfirst = true }

pub client-Ready : Ready client
client-Ready = record {
  known_mode = omega arith;
  room = refl;
  space = refl;
  works = refl;
  no_cr = refl;
}

pub not_stdout : same_text (codes "a") (codes "-") ≡ false
unfolding same_text
not_stdout = refl

do_get-Asking_example :
    (m' : Machine whole) × (do_get whole new_files (some 69) (codes "/a") (codes "a") [] machine
      ≡ (rounds whole [] m' >>= λ l. ok (finish whole l)))
    × Asking mode_ascii 69 (codes "/a") server.recvbuff client m'.session
do_get-Asking_example =
    do_get-Asking whole new_files 69 (codes "/a") (codes "a") server.recvbuff [] machine no_stream
      client-Ready (refl, (refl, tt)) (omega arith) not_stdout refl refl refl refl

abbrev asking : Session
asking = record client { socket = record (client.socket) { sent = (0 ∷ 1 ∷ request) ∷ [] } }

asked_strings :
    request_strings (drop 2 (overlay (0 ∷ 1 ∷ request) server.recvbuff)) 12
    ≡ ok (codes "/a", codes "netascii")
unfolding request_strings find_nul strlccpy
asked_strings = refl

Names-ascii : Names (codes "netascii") mode_ascii
Names-ascii = inl (refl, refl)

abbrev asking_fit : Asking mode_ascii 69 (codes "/a") server.recvbuff client asking
asking_fit = record {
  asks = record {
    first = refl;
    op = refl;
    in_mode = refl;
    known_mode = omega arith;
    space = refl;
    writes = refl;
    empty = refl;
    no_cr = refl;
  };
  peer = refl;
  first = refl;
  works = refl;
  room = refl;
  datagram = 0 ∷ 1 ∷ request;
  text = codes "netascii";
  sent = refl;
  opcode = refl;
  strings = asked_strings;
  named = Names-ascii;
}

served_datagram :
    recv_rrq disk (drop 2 (overlay (0 ∷ 1 ∷ request) server.recvbuff)) 12 server
    ≡ ok (more, answered)
unfolding recv_rrq recv_xrq request_strings find_nul set_mode same_text strlccpy check_name
    check_access open_request file_open recv_ack accept_ack file_read read_ascii send_data net_send
served_datagram = refl

few_bytes : length (network_form mode_ascii greeting) < 65535 * max_data
few_bytes = omega arith

Asking-ends_example :
    (turns : ℕ) × (z : System) × (lossless disk 2069 1069 turns
        (record { server = answered; client = asking })
      ≡ ok (done, z))
    × (z.client.localfp.stream.written ≡ greeting)
Asking-ends_example =
    Asking-ends disk 2069 1069 asking_fit refl server-Fresh disk_reads served_datagram refl refl
      (λ e. omega (arith, e)) few_bytes
