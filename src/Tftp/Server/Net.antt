-- ===== src/Tftp/Server/Net.antt =====
-- tftp-exercises/server/net_udp.c: the socket of a server process. A host is known by its port. The
-- kernel is an argument: what `recvfrom`, `socket`, `bind` and `fork` report.
use my_coding_exercises.Common.{
  ℕ, Bool, true, false, not, ◌&&◌, none, some, List, [], ◌∷◌, ◌++◌, Bytes, ◌==◌, if◌then◌else◌,
  take, length, overlay,
}
use my_coding_exercises.Tftp.Run.{
  Run, ok, stop, ◌>>◌, require, send_failed, recvfrom_error, wrong_port, socket_error, bind_error,
  fork_error,
}
use my_coding_exercises.Tftp.Session.{Socket, Session}

-- One return of `recvfrom`: interrupted by the alarm, by another signal (SIGCLD), failed, or a
-- datagram with the port that it came from.
pub data Arrival : Type 0 where
  alarm child failure : Arrival
  datagram : ℕ → Bytes → Arrival

-- What `net_recv` comes to: it still waits in `recvfrom`, it returns -1 on a time-out or on another
-- signal, or it returns the length of a datagram, which `recvbuff` holds.
pub data Received : Type 0 where
  waits timeout interrupted : Received
  bytes : ℕ → Session → Received

-- `net_init`: `socket` and `bind` succeed or not.
unfoldable pub net_init : Bool → Bool → Socket → Run Socket
net_init made bound k = do
  require made socket_error
  require bound bind_error
  ok (record k { is_open = true })

unfoldable pub net_close : Socket → Socket
net_close k = record k { is_open = false }

-- The buffer is passed with the length, as in C.
unfoldable pub net_send : Bytes → ℕ → Session → Run Session
net_send buff len s =
    if s.socket.send_fails
    then stop send_failed
    else ok (record s { socket = record (s.socket) { sent = s.socket.sent ++ take len buff ∷ [] } })

-- The tests of `net_recv` on the address of a datagram, and the copy of it to the buffer.
unfoldable pub take_datagram : ℕ → ℕ → Bytes → Session → Run Received
take_datagram maxlen port text s =
    let got = take maxlen text in
    let k = s.socket in
    let peer : ℕ = if k.recv_first then port else k.peer_port in
    let filled = record s {
      recvbuff = overlay got s.recvbuff;
      socket = record k { peer_port = peer; recv_first = false };
    } in
    if not (peer == 0) && not (peer == port)
    then stop wrong_port
    else ok (bytes (length got) filled)

-- The loop of `net_recv` around `recvfrom`, over its returns.
unfoldable pub receive : ℕ → List Arrival → Session → Run Received
receive maxlen [] s = ok waits
receive maxlen (alarm ∷ arrivals) s = ok timeout
receive maxlen (child ∷ arrivals) s = receive maxlen arrivals s
receive maxlen (failure ∷ arrivals) s = stop recvfrom_error
receive maxlen (datagram port text ∷ arrivals) s = take_datagram maxlen port text s

-- The first message has been read into `recvbuff` by `net_open`.
unfoldable pub net_recv : ℕ → List Arrival → Session → Run Received
net_recv maxlen arrivals s = elim s.socket.recv_nbytes [
  | some nbytes ↦ ok (bytes nbytes (record s { socket = record (s.socket) { recv_nbytes = none } }))
  | none ↦ receive maxlen arrivals s
]

-- What `fork` returns: -1, 0 in the child, or the child's process id in the parent.
pub data Forked : Type 0 where
  fork_failed : Forked
  in_child : Forked
  in_parent : ℕ → Forked

-- `net_open` once its `net_recv` has returned the length `nbytes` of the request: the process id in
-- the parent, and 0 with a new socket in the child.
unfoldable pub net_open : Forked → Bool → Bool → ℕ → Session → Run (ℕ × Session)
net_open fork_failed made bound nbytes s = stop fork_error
net_open (in_parent pid) made bound nbytes s = ok (pid, s)
net_open in_child made bound nbytes s = do
  require made socket_error
  require bound bind_error
  ok (0, record s { socket = record (s.socket) { recv_nbytes = some nbytes; is_open = true } })
