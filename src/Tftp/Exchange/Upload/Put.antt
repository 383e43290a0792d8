-- ===== src/Tftp/Exchange/Upload/Put.antt =====
-- The client's `do_put` up to its loop: the request that it sends, and the state that it waits in.
use my_coding_exercises.Common.{
  All, ℕ, ◌-◌, ◌<◌, ◌≡◌, refl, sym, ap, ◌∙◌, true, false, Bool, Option, some, List, [], ◌∷◌, ◌++◌,
  Bytes, codes, same_text, length, drop, overlay, if◌then◌else◌, arith,
}
use my_coding_exercises.Tftp.Client.File.{file_open}
use my_coding_exercises.Tftp.Client.Fsm.{Machine, rounds, fsm_loop}
use my_coding_exercises.Tftp.Client.Net.{net_open}
use my_coding_exercises.Tftp.Client.Send.{send_rq}
use my_coding_exercises.Tftp.Client.Transfer.{finish, do_put}
use my_coding_exercises.Tftp.Exchange.Get.{Ready}
use my_coding_exercises.Tftp.Exchange.Request.{
  InString, requested, send_rq-requested, length-requested, send_rq-request_strings,
}
use my_coding_exercises.Tftp.Exchange.Upload.Whole.{Offers, HeldNull, stray}
use my_coding_exercises.Tftp.Real.{Real}
use my_coding_exercises.Tftp.Rtt.{rtt_init, rtt_newpack}
use my_coding_exercises.Tftp.Run.{ok, ok-injective, ◌>>=◌}
use my_coding_exercises.Tftp.Server.Access.{Names}
use my_coding_exercises.Tftp.Server.Fsm.{Round}
use my_coding_exercises.Tftp.Server.Send.{request_strings}
use my_coding_exercises.Tftp.Session.{Session, Stream}
use my_coding_exercises.Tftp.Wire.{max_buff, max_data, max_filename, op_wrq, ldshort}

-- The session with its record of datagrams begun anew: the request has gone to the main process of
-- the server, and what follows goes to the process that answers it.
abbrev pub to_answerer : Session → Session
to_answerer c = record c { socket = record (c.socket) { sent = [] } }

-- A client in its loop, once it has asked the host at the given port to write a file.
pub record Offering (mode port : ℕ) (remfname buff file : Bytes) (before c : Session) : Type 0 where
  pub offers : Offers mode file (to_answerer c)
  pub peer : c.socket.peer_port ≡ port
  pub first : c.socket.recv_first ≡ true
  pub datagram : Bytes
  pub text : Bytes
  pub sent : c.socket.sent ≡ before.socket.sent ++ datagram ∷ []
  pub opcode : ldshort (overlay datagram buff) ≡ op_wrq
  pub strings :
      request_strings (drop 2 (overlay datagram buff)) (length datagram - 2) ≡ ok (remfname, text)
  pub named : Names text mode

module _ (R : Real) (fopen : Bytes → Bool → Option Stream) (port : ℕ) where
  abbrev opened : Session → Stream → Session
  opened s file = record s {
    nextblknum = 0;
    totnbytes = 0;
    lastsend = max_data;
    localfp = record (s.localfp) { stream = file };
    socket = record (s.socket) { peer_port = port; recv_first = true; is_open = true };
  }

  do_put-rounds :
      (remfname locfname : Bytes) (rs : List Round) (m : Machine R) {file : Stream} {s : Session}
      → same_text locfname (codes "-") ≡ false
      → fopen locfname true ≡ some file
      → send_rq op_wrq remfname m.session.modetype (opened m.session file) ≡ ok s
      → do_put R fopen (some port) remfname locfname rs m ≡ (
          rounds R rs (record {
            session = record s { op_sent = op_wrq };
            rttinfo = rtt_newpack R (if m.rttfirst then rtt_init R m.rttinfo else m.rttinfo);
            rttfirst = false;
          })
          >>= λ l. ok (finish R l))
  unfolding do_put file_open net_open fsm_loop
  do_put-rounds remfname locfname rs m named found sent =
      rw (do_put, file_open, named, found, sent) refl

  -- A client that is ready, in one of the two modes, with buffers of 2048 bytes and a `sendto` that
  -- works, and that holds no byte back, or the null byte that it starts with, calls `do_put` for a
  -- remote name with no null byte and fewer than 128 bytes, with a local file that is not "-" and
  -- that `fopen` opens fit for reading, on a socket that opens. Then it sends one datagram, in
  -- which a server with a buffer of 2048 bytes reads the opcode of a write request, the name, and
  -- the text of the client's mode, "netascii" or "octet", and it goes on with the rounds of its
  -- loop as a client that has asked to write that file in that mode, with the null byte in front in
  -- ASCII mode if it holds one back, and waits for the acknowledgement of block 0.
  pub do_put-Offering :
      (remfname locfname buff : Bytes) (rs : List Round) (m : Machine R) (file : Stream)
      → Ready m.session
      → HeldNull m.session.localfp.nextchar
      → All InString remfname
      → length remfname < max_filename
      → same_text locfname (codes "-") ≡ false
      → fopen locfname true ≡ some file
      → file.read_fails ≡ false
      → length buff ≡ max_buff
      → (m' : Machine R) × (do_put R fopen (some port) remfname locfname rs m
          ≡ (rounds R rs m' >>= λ l. ok (finish R l)))
        × Offering m.session.modetype port remfname buff
            (stray m.session.modetype m.session.localfp.nextchar ++ file.unread)
            m.session
            m'.session
  do_put-Offering remfname locfname buff rs m file ready held h short named found reads space =
      let s = opened m.session file in
      let mode = m.session.modetype in
      let (s', p, text, e, sent, opcode, strings, names) =
        send_rq-request_strings op_wrq remfname mode s buff (omega arith) h short ready.known_mode
          ready.room ready.works space in
      let e' = send_rq-requested op_wrq remfname mode s ready.known_mode ready.works in
      let same : s' ≡ requested op_wrq remfname mode s = ok-injective (sym e ∙ e') in
      (
        record {
          session = record (requested op_wrq remfname mode s) { op_sent = op_wrq };
          rttinfo = rtt_newpack R (if m.rttfirst then rtt_init R m.rttinfo else m.rttinfo);
          rttfirst = false;
        },
        do_put-rounds remfname locfname rs m named found e',
        record {
          offers = record {
            first = refl;
            op = refl;
            in_mode = refl;
            known_mode = ready.known_mode;
            full = refl;
            works = ready.works;
            silent = refl;
            room = length-requested op_wrq remfname mode s ∙ ready.room;
            space = ready.space;
            readable = reads;
            whole = refl;
            held = held;
          };
          peer = refl;
          first = refl;
          datagram = p;
          text = text;
          sent = ap (λ (t : Session). t.socket.sent) (sym same) ∙ sent;
          opcode = opcode;
          strings = strings;
          named = names;
        },
      )
