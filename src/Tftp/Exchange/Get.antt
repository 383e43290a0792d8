-- ===== src/Tftp/Exchange/Get.antt =====
-- The client's `do_get` up to its loop: the request that it sends, and the state that it waits in.
use mathlib.Core.Path.{subst}
use my_coding_exercises.Tftp.Exchange.Download.{System}
use my_coding_exercises.Tftp.Exchange.Ends.{lossless-ends}
use my_coding_exercises.Tftp.Exchange.Lossless.{lossless}
use my_coding_exercises.Tftp.Netascii.{network_form}
use my_coding_exercises.Common.{
  ◌≢◌, ◌*◌, inl, All, ℕ, ◌-◌, ◌≤◌, ◌<◌, ◌≡◌, refl, sym, ap, ◌∙◌, true, false, Bool, Option, some,
  List, [], ◌∷◌, ◌++◌, Bytes, codes, same_text, length, drop, overlay, if◌then◌else◌, arith,
}
use my_coding_exercises.Tftp.Client.File.{file_open}
use my_coding_exercises.Tftp.Client.Fsm.{Machine, rounds, fsm_loop}
use my_coding_exercises.Tftp.Client.Net.{net_open}
use my_coding_exercises.Tftp.Client.Transfer.{finish, do_get}
use my_coding_exercises.Tftp.Client.Send.{send_rq}
use my_coding_exercises.Tftp.Exchange.Request.{
  InString, requested, send_rq-requested, length-requested, send_rq-request_strings,
}
use my_coding_exercises.Tftp.Exchange.Start.{Asks, Fresh, ReadsWell}
use my_coding_exercises.Tftp.Real.{Real}
use my_coding_exercises.Tftp.Rtt.{rtt_init, rtt_newpack}
use my_coding_exercises.Tftp.Run.{Verdict, done, ok, ok-injective, ◌>>=◌}
use my_coding_exercises.Tftp.Server.Access.{Names, Names-named_mode}
use my_coding_exercises.Tftp.Server.Fsm.{Round}
use my_coding_exercises.Tftp.Server.Send.{Os, request_strings, recv_rrq}
use my_coding_exercises.Tftp.Session.{Session, Stream}
use my_coding_exercises.Tftp.Wire.{max_buff, max_data, max_filename, mode_binary, op_rrq, ldshort}

-- A client that is ready for a transfer.
pub record Ready (s : Session) : Type 0 where
  pub known_mode : s.modetype ≤ mode_binary
  pub room : length s.sendbuff ≡ max_buff
  pub space : length s.recvbuff ≡ max_buff
  pub works : s.socket.send_fails ≡ false
  pub no_cr : s.localfp.lastcr ≡ false

-- A client in its loop, once it has asked the host at the given port for a file.
pub record Asking (mode port : ℕ) (remfname buff : Bytes) (before c : Session) : Type 0 where
  pub asks : Asks mode c
  pub peer : c.socket.peer_port ≡ port
  pub first : c.socket.recv_first ≡ true
  pub works : c.socket.send_fails ≡ false
  pub room : length c.sendbuff ≡ max_buff
  pub datagram : Bytes
  pub text : Bytes
  pub sent : c.socket.sent ≡ before.socket.sent ++ datagram ∷ []
  pub opcode : ldshort (overlay datagram buff) ≡ op_rrq
  pub strings :
      request_strings (drop 2 (overlay datagram buff)) (length datagram - 2) ≡ ok (remfname, text)
  pub named : Names text mode

module _ (R : Real) (fopen : Bytes → Bool → Option Stream) (port : ℕ) where
  abbrev opened : Session → Stream → Session
  opened s file = record s {
    nextblknum = 1;
    totnbytes = 0;
    localfp = record (s.localfp) { stream = file };
    socket = record (s.socket) { peer_port = port; recv_first = true; is_open = true };
  }

  do_get-rounds :
      (remfname locfname : Bytes) (rs : List Round) (m : Machine R) {file : Stream} {s : Session}
      → same_text locfname (codes "-") ≡ false
      → fopen locfname false ≡ some file
      → send_rq op_rrq remfname m.session.modetype (opened m.session file) ≡ ok s
      → do_get R fopen (some port) remfname locfname rs m ≡ (
          rounds R rs (record {
            session = record s { op_sent = op_rrq };
            rttinfo = rtt_newpack R (if m.rttfirst then rtt_init R m.rttinfo else m.rttinfo);
            rttfirst = false;
          })
          >>= λ l. ok (finish R l))
  unfolding do_get file_open net_open fsm_loop
  do_get-rounds remfname locfname rs m named found sent =
      rw (do_get, file_open, named, found, sent) refl

  -- A client that is ready, in one of the two modes, with buffers of 2048 bytes, a `sendto` that
  -- works and no CR held back, calls `do_get` for a file whose name has no null byte and fewer than
  -- 128 bytes, with a local file that is not "-" and that `fopen` opens empty and fit for writing,
  -- on a socket that opens. Then it sends one datagram, in which a server with a buffer of 2048
  -- bytes reads the opcode of a read request, the name, and the text of the client's mode,
  -- "netascii" or "octet", and it goes on with the rounds of its loop as a client that has asked
  -- for the file in that mode and waits for block 1.
  pub do_get-Asking :
      (remfname locfname buff : Bytes) (rs : List Round) (m : Machine R) (file : Stream)
      → Ready m.session
      → All InString remfname
      → length remfname < max_filename
      → same_text locfname (codes "-") ≡ false
      → fopen locfname false ≡ some file
      → file.write_fails ≡ false
      → file.written ≡ []
      → length buff ≡ max_buff
      → (m' : Machine R) × (do_get R fopen (some port) remfname locfname rs m
          ≡ (rounds R rs m' >>= λ l. ok (finish R l)))
        × Asking m.session.modetype port remfname buff m.session m'.session
  do_get-Asking remfname locfname buff rs m file ready h short named found writes fresh space =
      let s = opened m.session file in
      let mode = m.session.modetype in
      let (s', p, text, e, sent, opcode, strings, names) =
        send_rq-request_strings op_rrq remfname mode s buff (omega arith) h short ready.known_mode
          ready.room ready.works space in
      let e' = send_rq-requested op_rrq remfname mode s ready.known_mode ready.works in
      let same : s' ≡ requested op_rrq remfname mode s = ok-injective (sym e ∙ e') in
      (
        record {
          session = record (requested op_rrq remfname mode s) { op_sent = op_rrq };
          rttinfo = rtt_newpack R (if m.rttfirst then rtt_init R m.rttinfo else m.rttinfo);
          rttfirst = false;
        },
        do_get-rounds remfname locfname rs m named found e',
        record {
          asks = record {
            first = refl;
            op = refl;
            in_mode = refl;
            known_mode = ready.known_mode;
            space = ready.space;
            writes = writes;
            empty = fresh;
            no_cr = ready.no_cr;
          };
          peer = refl;
          first = refl;
          works = ready.works;
          room = length-requested op_rrq remfname mode s ∙ ready.room;
          datagram = p;
          text = text;
          sent = ap (λ (t : Session). t.socket.sent) (sym same) ∙ sent;
          opcode = opcode;
          strings = strings;
          named = names;
        },
      )

-- A client that holds back no CR has asked for a file, with an empty file to write to that takes
-- its writes, and waits in its loop; a fresh server process, on a system where no read of an opened
-- file fails, has answered the strings of its request, keeps to the client's port, and sends from
-- another port than the request went to. If the file has fewer than 65535 * 512 bytes in its
-- network form and the network delivers every datagram, in turns, then both loops end with 0, and
-- the client has written the whole of the file that it asked for.
pub Asking-ends :
    (os : Os) {mode port : ℕ} {remfname buff : Bytes} {before c s s' : Session} {v : Verdict}
    {file : Stream} (server_port client_port : ℕ) (a : Asking mode port remfname buff before c)
    → os.fopen remfname true ≡ some file
    → Fresh s
    → ReadsWell os
    → recv_rrq os (drop 2 (overlay a.datagram buff)) (length a.datagram - 2) s ≡ ok (v, s')
    → s.socket.recv_first ≡ false
    → s.socket.peer_port ≡ client_port
    → port ≢ server_port
    → length (network_form mode file.unread) < 65535 * max_data
    → (turns : ℕ) × (z : System) × (lossless os server_port client_port turns
          (record { server = s'; client = c })
        ≡ ok (done, z))
      × (z.client.localfp.stream.written ≡ file.unread)
Asking-ends os {mode = mode} {c = c} {file = file} server_port client_port a found fresh reads
      served later peer other bounded =
    let (z, e, w) =
      lossless-ends os _ _ server_port client_port a.strings found fresh reads served
        (subst (λ m. Asks m c) (Names-named_mode a.text mode a.named) a.asks) later peer
        (inl (a.first, λ e. other (sym a.peer ∙ e))) a.works a.room
        (subst (λ m. length (network_form m file.unread) < 65535 * max_data)
          (Names-named_mode a.text mode a.named) bounded) in
    (_, z, e, w)
