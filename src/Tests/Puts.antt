-- ===== src/Tests/Puts.antt =====
-- A put of the small file: the request, the acknowledgement of block 0, the block, and the end.
use my_coding_exercises.Common.{
  ◌≡◌, ◌<◌, refl, some, [], ◌++◌, Bool, Bytes, Option, codes, arith, get_elem?, same_text,
}
use my_coding_exercises.Tests.{greeting, greeting_file, disk, server, client, request}
use my_coding_exercises.Tests.Get.{machine, client-Ready, not_stdout}
use my_coding_exercises.Tests.Parts.{whole}
use my_coding_exercises.Tests.Transfers.{session_of, asked, block, server-Fresh}
use my_coding_exercises.Tftp.Client.File as ClientFile
use my_coding_exercises.Tftp.Client.Fsm as ClientFsm
use my_coding_exercises.Tftp.Client.Net as ClientNet
use my_coding_exercises.Tftp.Client.Send as ClientSend
use my_coding_exercises.Tftp.Client.Transfer.{finish, do_put}
use my_coding_exercises.Tftp.Exchange.{serve, consume}
use my_coding_exercises.Tftp.Exchange.Download.{System}
use my_coding_exercises.Tftp.Exchange.Upload.Begin.{WritesWell, Accepts, recv_wrq-Accepts}
use my_coding_exercises.Tftp.Exchange.Upload.Put.{Offering, do_put-Offering}
use my_coding_exercises.Tftp.Exchange.Upload.Steps.{Reach, here, next, to_client, to_server}
use my_coding_exercises.Tftp.Exchange.Upload.Whole.{Offers, upload_begins, upload_whole}
use my_coding_exercises.Tftp.Run.{ok, more, done, ◌>>=◌}
use my_coding_exercises.Tftp.Server.File.{file_open, file_close, file_write, write_ascii, after_cr}
use my_coding_exercises.Tftp.Server.Fsm.{dispatch, call}
use my_coding_exercises.Tftp.Server.Net.{net_send, take_datagram}
use my_coding_exercises.Tftp.Server.Send.{
  recv_wrq, recv_xrq, request_strings, find_nul, set_mode, strlccpy, check_name, check_access,
  open_request, send_ack, recv_data, place_data, accept_data,
}
use my_coding_exercises.Tftp.Session.{Session, Stream}
use my_coding_exercises.Tftp.Wire.{max_data, mode_ascii, op_wrq, op_data, op_ack, packet}

abbrev putter : Session
putter = record client {
  op_sent = op_wrq;
  nextblknum = 0;
  lastsend = max_data;
  localfp = record (client.localfp) { stream = greeting_file };
}

putter-Offers : Offers mode_ascii greeting putter
putter-Offers = record {
  first = refl;
  op = refl;
  in_mode = refl;
  known_mode = omega arith;
  full = refl;
  works = refl;
  silent = refl;
  room = refl;
  space = refl;
  readable = refl;
  held = tt;
  whole = refl;
}

disk_writes : WritesWell disk
disk_writes name fp e = (cc, cc)

abbrev accepting : Session
accepting = session_of (recv_wrq disk request 12 server)

accepted : recv_wrq disk request 12 server ≡ ok (more, accepting)
unfolding recv_wrq recv_xrq request_strings find_nul set_mode same_text strlccpy check_name
    check_access open_request file_open send_ack net_send
accepted = refl

recv_wrq-Accepts_example : Accepts disk request 12 server accepting
recv_wrq-Accepts_example = recv_wrq-Accepts disk request 12 server server-Fresh disk_writes accepted

abbrev giving : Session
giving = session_of (consume 1069 (packet op_ack 0 []) putter)

acknowledged : consume 1069 (packet op_ack 0 []) putter ≡ ok (more, giving)
unfolding consume ClientNet.take_datagram ClientFsm.dispatch ClientFsm.call ClientSend.recv_ack
    ClientSend.accept_ack ClientFile.file_read ClientFile.read_ascii ClientSend.send_data
    ClientNet.net_send
acknowledged = refl

abbrev stored : Session
stored = session_of (serve disk 1069 (packet op_data 1 block) accepting)

served : serve disk 1069 (packet op_data 1 block) accepting ≡ ok (done, stored)
unfolding serve take_datagram dispatch call recv_data place_data accept_data file_write write_ascii
    after_cr file_close send_ack net_send recv_wrq recv_xrq request_strings find_nul set_mode
    same_text strlccpy check_name check_access open_request file_open
served = refl

abbrev ends : System
ends = record { server = accepting; client = putter }

abbrev under_way : System
under_way = record { server = accepting; client = giving }

begins : Reach disk ends under_way
begins = next here (to_client 1069 (packet op_ack 0 []) (omega arith) acknowledged)

sent_block : get_elem? giving.socket.sent 0 ≡ some (packet op_data 1 block)
unfolding consume ClientNet.take_datagram ClientFsm.dispatch ClientFsm.call ClientSend.recv_ack
    ClientSend.accept_ack ClientFile.file_read ClientFile.read_ascii ClientSend.send_data
    ClientNet.net_send
sent_block = refl

few_blocks : giving.nextblknum < 65536
unfolding consume ClientNet.take_datagram ClientFsm.dispatch ClientFsm.call ClientSend.recv_ack
    ClientSend.accept_ack ClientFile.file_read ClientFile.read_ascii ClientSend.send_data
    ClientNet.net_send
few_blocks = omega arith

upload_begins_example : (tail : Bytes) × (accepting.localfp.stream.written ++ tail ≡ greeting)
unfolding same_text
upload_begins_example =
    upload_begins disk request 12 asked server-Fresh disk_writes accepted putter-Offers begins

upload_whole_example : stored.localfp.stream.written ≡ greeting
unfolding same_text
upload_whole_example =
    upload_whole disk request 12 asked server-Fresh disk_writes accepted putter-Offers begins
      (to_server 1069 0 (packet op_data 1 block) sent_block served) few_blocks

-- Every file that the client opens is the small one.
abbrev small_files : Bytes → Bool → Option Stream
small_files name reading = some greeting_file

do_put-Offering_example :
    (m' : ClientFsm.Machine whole) × (do_put whole small_files
        (some 69)
        (codes "/a")
        (codes "a")
        []
        machine
      ≡ (ClientFsm.rounds whole [] m' >>= λ l. ok (finish whole l)))
    × Offering mode_ascii 69 (codes "/a") server.recvbuff greeting client m'.session
do_put-Offering_example =
    do_put-Offering whole small_files 69 (codes "/a") (codes "a") server.recvbuff [] machine
      greeting_file client-Ready tt (refl, (refl, tt)) (omega arith) not_stdout refl refl refl
