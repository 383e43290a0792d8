-- ===== src/Tftp/Client/Net.antt =====
-- tftp-exercises/client/netudp_cli.c: the socket of the client. `udp_open` (udp_open.c, which asks
-- the resolver) is an argument of `net_open`: the server's port, or an error.
use my_coding_exercises.Common.{
  ℕ, true, false, Option, none, some, List, [], ◌∷◌, ◌++◌, Bytes, ◌==◌, if◌then◌else◌, take, length,
  overlay,
}
use my_coding_exercises.Tftp.Run.{Run, ok, stop, send_failed, recvfrom_error, wrong_port}
use my_coding_exercises.Tftp.Server.Net.{
  Arrival, alarm, child, failure, datagram, Received, waits, timeout, interrupted, bytes,
}
use my_coding_exercises.Tftp.Session.{Session}

-- `none` is the result -1.
unfoldable pub net_open : Option ℕ → Session → Option Session
net_open none s = none
net_open (some port) s = some (record s {
  socket = record (s.socket) { peer_port = port; recv_first = true; is_open = true };
})

unfoldable pub net_close : Session → Session
net_close s = record s { socket = record (s.socket) { is_open = false } }

unfoldable pub net_send : Bytes → ℕ → Session → Run Session
net_send buff len s =
    if s.socket.send_fails
    then stop send_failed
    else ok (record s { socket = record (s.socket) { sent = s.socket.sent ++ take len buff ∷ [] } })

-- The first datagram must come from another port than the request went to, and the server keeps
-- that port from then on.
unfoldable pub take_datagram : ℕ → ℕ → Bytes → Session → Run Received
take_datagram maxlen port text s =
    let got = take maxlen text in
    let k = s.socket in
    let filled = record s {
      recvbuff = overlay got s.recvbuff;
      socket = record k { peer_port = port; recv_first = false };
    } in
    if k.recv_first
    then (if k.peer_port == port then stop wrong_port else ok (bytes (length got) filled))
    else if k.peer_port == port
    then ok (bytes (length got) filled)
    else stop wrong_port

-- Any signal interrupts the call, and -1 is returned.
unfoldable pub net_recv : ℕ → List Arrival → Session → Run Received
net_recv maxlen [] s = ok waits
net_recv maxlen (alarm ∷ arrivals) s = ok timeout
net_recv maxlen (child ∷ arrivals) s = ok interrupted
net_recv maxlen (failure ∷ arrivals) s = stop recvfrom_error
net_recv maxlen (datagram port text ∷ arrivals) s = take_datagram maxlen port text s
