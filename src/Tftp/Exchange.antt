-- ===== src/Tftp/Exchange.antt =====
-- The two programs of tftp-exercises/ with a network between them that may lose, repeat, delay and
-- reorder datagrams. A datagram that arrives goes through the tests of `net_recv` and the dispatch
-- of `fsm_loop`, as in a round of the loop; Rounds and Repeats are about the loops
-- themselves.
pub mod Packets
pub mod Blocks
pub mod Sender
pub mod Goes
pub mod Serve
pub mod Receiver
pub mod Consume
pub mod Written
pub mod Download
pub mod Start
pub mod Takes
pub mod Replies
pub mod Lossless
pub mod Ends
pub mod Rounds
pub mod Repeats
pub mod Request
pub mod Get
pub mod Upload
use my_coding_exercises.Common.{ℕ, zero, suc, Bool, Option, none, some, List, Bytes, ◌≡◌}
use my_coding_exercises.Tftp.Client.Fsm as ClientFsm
use my_coding_exercises.Tftp.Client.Net as ClientNet
use my_coding_exercises.Tftp.Run.{Run, ok, stop, ◌>>=◌, Verdict, more, done, recvfrom_error}
use my_coding_exercises.Tftp.Server.Fsm as ServerFsm
use my_coding_exercises.Tftp.Server.Net as ServerNet
use my_coding_exercises.Tftp.Server.Net.{Received, waits, timeout, interrupted, bytes}
use my_coding_exercises.Tftp.Server.Send.{Os}
use my_coding_exercises.Tftp.Session.{Session}
use my_coding_exercises.Tftp.Wire.{max_buff}

module _ (os : Os) where
  unfoldable pub serve : ℕ → Bytes → Session → Run (Verdict × Session)
  serve port p s = do
    got ← ServerNet.take_datagram max_buff port p s
    elim got [
      | waits ↦ stop recvfrom_error
      | timeout ↦ stop recvfrom_error
      | interrupted ↦ stop recvfrom_error
      | bytes n s' ↦ ServerFsm.dispatch os n s'
    ]

unfoldable pub consume : ℕ → Bytes → Session → Run (Verdict × Session)
consume port p s = do
  got ← ClientNet.take_datagram max_buff port p s
  elim got [
    | waits ↦ stop recvfrom_error
    | timeout ↦ stop recvfrom_error
    | interrupted ↦ stop recvfrom_error
    | bytes n s' ↦ ClientFsm.dispatch n s'
  ]
