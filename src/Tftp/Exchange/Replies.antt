-- ===== src/Tftp/Exchange/Replies.antt =====
-- What a server makes of the acknowledgement that it waits for: it answers it.
use my_coding_exercises.Common.{
  ℕ, ◌-◌, ◌≤◌, ◌<◌, ◌≡◌, refl, ◌∙◌, false, List, [], Bytes, length, take, drop, arith, ltb,
}
use my_coding_exercises.Tftp.Exchange.{serve}
use my_coding_exercises.Tftp.Exchange.Packets.{held_op, held_block}
use my_coding_exercises.Tftp.Exchange.Sender.{Sending, Answered, accept_ack-Answered}
use my_coding_exercises.Tftp.Exchange.Serve as Serve
use my_coding_exercises.Tftp.Run.{ok, Verdict}
use my_coding_exercises.Tftp.Server.Fsm as ServerFsm
use my_coding_exercises.Tftp.Server.Net.{Received, bytes}
use my_coding_exercises.Tftp.Server.Net as ServerNet
use my_coding_exercises.Tftp.Server.Send as ServerSend
use my_coding_exercises.Tftp.Server.Send.{Os}
use my_coding_exercises.Tftp.Session.{Session}
use my_coding_exercises.Tftp.Wire.{max_buff, op_data, op_ack, ldshort, packet}

server_takes :
    (port : ℕ) (p : Bytes) (s : Session)
    → s.socket.recv_first ≡ false
    → s.socket.peer_port ≡ port
    → ServerNet.take_datagram max_buff port p s
      ≡ ok (bytes (length (take max_buff p)) (Serve.received port p s))
unfolding ServerNet.take_datagram
server_takes port p s later same = ground arith

module _ (os : Os) where
  server_dispatches :
      (n : ℕ) (s : Session)
      → s.op_sent ≡ op_data
      → 4 ≤ n
      → ldshort s.recvbuff ≡ op_ack
      → ServerFsm.dispatch os n s
        ≡ ServerSend.recv_ack (drop 2 s.recvbuff) (n - 2) (record s { op_recv = op_ack })
  unfolding ServerFsm.dispatch ServerFsm.call
  server_dispatches n s op h i = let long : ltb n 4 ≡ false = ground arith in rw (long, i, op) refl

  server_accepts :
      (ptr : Bytes) (s : Session)
      → ldshort ptr ≡ s.nextblknum
      → ServerSend.recv_ack ptr 2 s ≡ ServerSend.accept_ack s
  unfolding ServerSend.recv_ack
  server_accepts ptr s i = ground arith

  -- The server with the acknowledgement in its buffer.
  abbrev pub with_ack : ℕ → ℕ → Session → Session
  with_ack port k s = record (Serve.received port (packet op_ack k []) s) { op_recv = op_ack }

  -- What the server makes of the acknowledgement that it waits for.
  pub server-answers :
      (network : Bytes) (blocks : List Bytes) (port : ℕ) (s : Session)
      → Sending network blocks s
      → s.op_sent ≡ op_data
      → length blocks < 65536
      → s.socket.recv_first ≡ false
      → s.socket.peer_port ≡ port
      → (v : Verdict) × (s' : Session) × (serve os port (packet op_ack (length blocks) []) s
          ≡ ok (v, s'))
        × Answered network blocks (with_ack port (length blocks) s) v s'
  unfolding serve
  server-answers network blocks port s h op few later same =
      let p = packet op_ack (length blocks) [] in
      let r = Serve.received port p s in
      let r₁ = with_ack port (length blocks) s in
      let fits : 4 ≤ length s.recvbuff = omega (arith, h.space) in
      let is_ack : ldshort r.recvbuff ≡ op_ack =
        held_op op_ack (length blocks) [] s.recvbuff fits (omega arith) in
      let number : ldshort (drop 2 r₁.recvbuff) ≡ r₁.nextblknum =
        held_block op_ack (length blocks) [] s.recvbuff fits ∙ omega (arith, few, h.counted) in
      let (v, s', e, a) =
        accept_ack-Answered network blocks r₁
          (Serve.Sending-received network blocks port p s op_ack h)
          (omega (arith, few, h.counted)) in
      (
        v,
        s',
        rw (serve, server_takes port p s later same)
            (server_dispatches 4 r op (omega arith) is_ack
              ∙ server_accepts (drop 2 r₁.recvbuff) r₁ number
              ∙ e),
        a,
      )
