-- ===== src/Tftp/Client/Transfer.antt =====
-- tftp-exercises/client/cmdgetput.c: a transfer from the request to the statistics. The timing of
-- the statistics (`t_start`, `t_stop`, `t_getrtime`) is left out, and so is the printing.
use my_coding_exercises.Common.{ℕ, Bool, true, false, Option, none, some, List, Bytes}
use my_coding_exercises.Tftp.Client.File.{file_open, file_close}
use my_coding_exercises.Tftp.Client.Fsm.{
  Machine, Loop, finished, timed_out, waiting, blocked, fsm_loop,
}
use my_coding_exercises.Tftp.Client.Net.{net_open, net_close}
use my_coding_exercises.Tftp.Client.Send.{send_rq}
use my_coding_exercises.Tftp.Real.{Real}
use my_coding_exercises.Tftp.Run.{Run, ok, ◌>>=◌}
use my_coding_exercises.Tftp.Server.Fsm.{Round}
use my_coding_exercises.Tftp.Session.{Stream}
use my_coding_exercises.Tftp.Wire.{max_data, op_rrq, op_wrq}

-- How a call of `do_get` or `do_put` stands: it could not open the file or the socket, the loop
-- still waits for the server, or it has returned, with whether the local
-- file was closed; a transfer that timed out returns as well.
module _ (R : Real) where
  pub data Result : Type 0 where
    no_file : Result
    no_socket in_loop : Machine R → Result
    returned : Machine R → Bool → Result

  -- The calls behind `fsm_loop`.
  unfoldable pub finish : Loop R → Result
  finish (waiting m) = in_loop m
  finish (blocked m) = in_loop m
  finish (finished m) =
      returned (record m { session = net_close m.session }) (file_close m.session.localfp)
  finish (timed_out m) =
      returned (record m { session = net_close m.session }) (file_close m.session.localfp)

  module _ (fopen : Bytes → Bool → Option Stream) (udp_port : Option ℕ) where
    unfoldable pub do_get : Bytes → Bytes → List Round → Machine R → Run Result
    do_get remfname locfname rs m = elim (file_open fopen locfname false 1 m.session) [
      | none ↦ ok no_file
      | some s₁ ↦ elim (net_open udp_port s₁) [
        | none ↦ ok (no_socket (record m { session = s₁ }))
        | some s₂ ↦ do
          s₃ ← send_rq op_rrq remfname s₂.modetype (record s₂ { totnbytes = 0 })
          l ← fsm_loop R op_rrq rs (record m { session = s₃ })
          ok (finish l)
      ]
    ]

    unfoldable pub do_put : Bytes → Bytes → List Round → Machine R → Run Result
    do_put remfname locfname rs m = elim (file_open fopen locfname true 0 m.session) [
      | none ↦ ok no_file
      | some s₁ ↦ elim (net_open udp_port s₁) [
        | none ↦ ok (no_socket (record m { session = s₁ }))
        | some s₂ ↦ do
          s₃ ←
              send_rq op_wrq remfname s₂.modetype (record s₂ { totnbytes = 0; lastsend = max_data })
          l ← fsm_loop R op_wrq rs (record m { session = s₃ })
          ok (finish l)
      ]
    ]
