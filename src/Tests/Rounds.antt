-- ===== src/Tests/Rounds.antt =====
-- The client's loop with a time-out before the only block arrives.
use my_coding_exercises.Common.{
  ℕ, zero, suc, some, [], ◌∷◌, ◌≡◌, refl, false, All, arith, length, Bytes, get_elem?, ap,
}
use my_coding_exercises.Tests.{greeting, client}
use my_coding_exercises.Tests.Parts.{whole, timer}
use my_coding_exercises.Tests.Transfers.{block, client-Asks}
use my_coding_exercises.Tftp.Client.File as ClientFile
use my_coding_exercises.Tftp.Client.Fsm.{Machine, Loop, finished, rounds, round, dispatch, call}
use my_coding_exercises.Tftp.Client.Net.{take_datagram, net_recv, net_send}
use my_coding_exercises.Tftp.Client.Send as ClientSend
use my_coding_exercises.Tftp.Exchange.Blocks.{Blocks, carries}
use my_coding_exercises.Tftp.Exchange.Rounds.{Brings, Copied, rounds-Copied}
use my_coding_exercises.Tftp.Netascii.{network_form}
use my_coding_exercises.Tftp.Rtt.{rtt_start, rtt_stop, rtt_timeout, observe, estimate}
use my_coding_exercises.Tftp.Run.{Run, ok}
use my_coding_exercises.Tftp.Server.Fsm.{Round}
use my_coding_exercises.Tftp.Server.Net.{alarm, datagram}
use my_coding_exercises.Tftp.Wire.{packet, op_data, mode_ascii}

abbrev pub silent : Round
silent = record { started = some (5, 0); arrivals = alarm ∷ []; stopped = some (9, 0) }

abbrev delivering : Round
delivering = record {
  started = some (5, 0);
  arrivals = datagram 2069 (packet op_data 1 block) ∷ [];
  stopped = some (9, 0);
}

abbrev machine : Machine whole
machine = record { session = client; rttinfo = timer; rttfirst = false }

abbrev machine_of : Run (Loop whole) → Machine whole
machine_of (ok (finished m)) = m
machine_of r = machine

abbrev end : Machine whole
end = machine_of (rounds whole (silent ∷ delivering ∷ []) machine)

loop_ends : rounds whole (silent ∷ delivering ∷ []) machine ≡ ok (finished end)
unfolding rounds round net_recv net_send rtt_start rtt_stop rtt_timeout observe estimate
    take_datagram dispatch call ClientSend.recv_data ClientSend.place_data ClientSend.accept_data
    ClientFile.file_write ClientFile.write_ascii ClientFile.after_cr ClientSend.send_ack
    ClientFile.file_close
loop_ends = refl

at_zero : (k : ℕ) (b : Bytes) → get_elem? (block ∷ []) k ≡ some b → (k ≡ 0) × (b ≡ block)
at_zero zero b h = (refl, cc)
at_zero (suc k) b h = cc

only_block : Blocks (network_form mode_ascii greeting) (block ∷ []) []
only_block = record {
  whole = refl;
  fits = λ k b h. omega (arith, ap length (at_zero k b h).1);
  last_short = λ k b h short. (ap suc (at_zero k b h).0, refl);
}

brought : All (λ (r : Round). All (Brings (block ∷ [])) r.arrivals) (silent ∷ delivering ∷ [])
unfolding Brings
brought = ((tt, tt), ((carries 0 block refl refl, tt), tt))

rounds-Copied_example : end.session.localfp.stream.written ≡ greeting
unfolding Copied
rounds-Copied_example =
    rounds-Copied whole greeting (block ∷ []) (silent ∷ delivering ∷ []) machine client-Asks
      only_block (omega arith) brought loop_ends
