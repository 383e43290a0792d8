-- ===== src/Tests/Transfers.antt =====
-- The transfer of a file that fits one block.
use my_coding_exercises.Tftp.Client.File as ClientFile
use my_coding_exercises.Tftp.Client.Send as ClientSend
use my_coding_exercises.Tftp.Client.Fsm as ClientFsm
use my_coding_exercises.Tftp.Client.Net as ClientNet
use my_coding_exercises.Common.{
  none, ℕ, some, inl, [], ◌∷◌, ◌++◌, ◌≡◌, ◌<◌, refl, Bytes, codes, arith, get_elem?, same_text,
}
use my_coding_exercises.Tests.{greeting, greeting_file, disk, server, client, request}
use my_coding_exercises.Tftp.Exchange.{serve, consume}
use my_coding_exercises.Tftp.Exchange.Download.{System, Step, to_client, here}
use my_coding_exercises.Tftp.Exchange.Receiver.{Receiving}
use my_coding_exercises.Tftp.Exchange.Consume.{consume-Receiving}
use my_coding_exercises.Tftp.Exchange.Serve.{serve-Goes}
use my_coding_exercises.Tftp.Exchange.Sender.{Answered, accept_ack-Answered}
use my_coding_exercises.Tftp.Exchange.Goes.{Goes}
use my_coding_exercises.Tftp.Exchange.Start.{
  Fresh, Asks, ReadsWell, Answers, recv_rrq-Answers, download_begins, download_whole,
}
use my_coding_exercises.Tftp.Netascii.{network_form}
use my_coding_exercises.Tftp.Run.{Run, ok, stop, Verdict, more, done}
use my_coding_exercises.Tftp.Server.Access.{Granted, recv_xrq-Granted}
use my_coding_exercises.Tftp.Server.Send.{
  recv_rrq, recv_xrq, request_strings, accept_ack, find_nul, set_mode, strlccpy, check_name,
  check_access, open_request, recv_ack, send_data,
}
use my_coding_exercises.Tftp.Server.File.{file_open, file_read, read_ascii, write_ascii}
use my_coding_exercises.Tftp.Server.Net.{net_send, take_datagram}
use my_coding_exercises.Tftp.Server.Fsm.{dispatch, call}
use my_coding_exercises.Tftp.Session.{Session}
use my_coding_exercises.Tftp.Wire.{packet, op_data, op_ack, op_rrq, mode_ascii}

abbrev pub session_of : Run (Verdict × Session) → Session
session_of (ok (v, s)) = s
session_of (stop h) = server

abbrev pub answered : Session
answered = session_of (recv_rrq disk request 12 server)

abbrev pub block : Bytes
block = codes "hi\r\n"

pub served : recv_rrq disk request 12 server ≡ ok (more, answered)
unfolding recv_rrq recv_xrq request_strings find_nul set_mode same_text strlccpy check_name
    check_access open_request file_open recv_ack accept_ack file_read read_ascii send_data net_send
served = refl

pub server-Fresh : Fresh server
server-Fresh = record { works = refl; silent = refl; room = refl; space = refl }

pub disk_reads : ReadsWell disk
disk_reads name fp e = cc

pub client-Asks : Asks mode_ascii client
client-Asks = record {
  first = refl;
  op = refl;
  in_mode = refl;
  known_mode = omega arith;
  space = refl;
  writes = refl;
  empty = refl;
  no_cr = refl;
}

pub asked : request_strings request 12 ≡ ok (codes "/a", codes "netascii")
unfolding request_strings find_nul strlccpy
asked = refl

abbrev ends : System
ends = record { server = answered; client = client }

abbrev client_done : Session
client_done = session_of (consume 1069 (packet op_data 1 block) client)

consumed : consume 1069 (packet op_data 1 block) client ≡ ok (done, client_done)
unfolding consume ClientNet.take_datagram ClientFsm.dispatch ClientFsm.call ClientSend.recv_data
    ClientSend.place_data ClientSend.accept_data ClientFile.file_write ClientFile.write_ascii
    ClientFile.after_cr ClientSend.send_ack ClientNet.net_send ClientFile.file_close
consumed = refl

sent_block : get_elem? answered.socket.sent 0 ≡ some (packet op_data 1 block)
unfolding recv_rrq recv_xrq request_strings find_nul set_mode same_text strlccpy check_name
    check_access open_request file_open recv_ack accept_ack file_read read_ascii send_data net_send
sent_block = refl

last-Step : Step disk ends done (record ends { client = client_done })
last-Step = to_client 1069 0 (packet op_data 1 block) sent_block consumed

pub no_request : answered.socket.recv_nbytes ≡ none
unfolding recv_rrq recv_xrq request_strings find_nul set_mode same_text strlccpy check_name
    check_access open_request file_open recv_ack accept_ack file_read read_ascii send_data net_send
no_request = refl

few_blocks : answered.nextblknum < 65536
unfolding recv_rrq recv_xrq request_strings find_nul set_mode same_text strlccpy check_name
    check_access open_request file_open recv_ack accept_ack file_read read_ascii send_data net_send
few_blocks = omega arith

download_begins_example : (tail : Bytes) × (client.localfp.stream.written ++ tail ≡ greeting)
unfolding same_text
download_begins_example =
    download_begins disk request 12 asked refl server-Fresh disk_reads served client-Asks here

download_whole_example : client_done.localfp.stream.written ≡ greeting
unfolding same_text
download_whole_example =
    download_whole disk request 12 asked refl server-Fresh disk_reads served client-Asks here
      last-Step few_blocks

recv_rrq-Answers_example : Answers disk request 12 server answered
recv_rrq-Answers_example = recv_rrq-Answers disk request 12 server server-Fresh disk_reads served

recv_xrq_served :
    recv_xrq disk op_rrq request 12 server
    ≡ ok (record server {
      modetype = mode_ascii;
      localfp = record (server.localfp) { stream = greeting_file };
    })
unfolding recv_xrq request_strings find_nul set_mode same_text strlccpy check_name check_access
    open_request file_open
recv_xrq_served = refl

recv_xrq-Granted_example : Granted disk op_rrq request 12 server (record server {
  modetype = mode_ascii;
  localfp = record (server.localfp) { stream = greeting_file };
})
recv_xrq-Granted_example = recv_xrq-Granted disk op_rrq request 12 server recv_xrq_served

-- The sender that the server is once it has answered.
answer : Answers disk request 12 server answered
answer = recv_rrq-Answers disk request 12 server server-Fresh disk_reads served

abbrev pub ack : ℕ → Bytes
ack k = packet op_ack k []

abbrev server_done : Session
server_done = session_of (serve disk 1069 (ack 1) answered)

acknowledged : serve disk 1069 (ack 1) answered ≡ ok (done, server_done)
unfolding serve take_datagram dispatch call recv_rrq recv_xrq request_strings find_nul set_mode
    same_text strlccpy check_name check_access open_request file_open recv_ack accept_ack file_read
    read_ascii send_data net_send
acknowledged = refl

serve-Goes_example :
    Goes
      (network_form answer.granted.mode answer.granted.stream.unread)
      (answer.out ∷ [])
      server_done
serve-Goes_example =
    serve-Goes disk (network_form answer.granted.mode answer.granted.stream.unread)
      (answer.out ∷ []) 1069 (ack 1) answered answer.sends answer.op
      (omega arith, (omega arith, (omega arith, (omega arith, tt)))) acknowledged

accept_ack-Answered_example :
    (v : Verdict) × (s' : Session) × (accept_ack answered ≡ ok (v, s'))
    × Answered
        (network_form answer.granted.mode answer.granted.stream.unread)
        (answer.out ∷ [])
        answered
        v
        s'
accept_ack-Answered_example =
    accept_ack-Answered (network_form answer.granted.mode answer.granted.stream.unread)
      (answer.out ∷ []) answered answer.sends few_blocks

client_receives : Receiving mode_ascii (block ∷ []) client
unfolding write_ascii
client_receives = record {
  from_one = omega arith;
  taken = omega arith;
  wrote = (refl, refl);
  in_mode = refl;
  known_mode = omega arith;
  space = refl;
  awaits = inl refl;
}

consume-Receiving_example :
    Receiving mode_ascii (block ∷ []) client_done
    × (done ≡ done)
    × (0 < 65535 → client_done.nextblknum ≡ 2)
consume-Receiving_example =
    consume-Receiving (block ∷ []) 0 block 1069 client client_receives refl (omega arith)
      (omega arith) consumed
