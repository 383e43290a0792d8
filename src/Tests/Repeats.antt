-- ===== src/Tests/Repeats.antt =====
-- The server's loop with a time-out before the acknowledgement of the only block arrives.
use my_coding_exercises.Common.{some, [], ◌∷◌, ◌≡◌, refl, false, All, arith, same_text}
use my_coding_exercises.Tests.{disk, request, server}
use my_coding_exercises.Tests.Parts.{whole, timer}
use my_coding_exercises.Tests.Rounds.{silent}
use my_coding_exercises.Tests.Transfers.{
  answered, no_request, ack, served, server-Fresh, disk_reads,
}
use my_coding_exercises.Tftp.Exchange.Repeats.{IsArrival, Sends, Stands, rounds-Sends}
use my_coding_exercises.Tftp.Exchange.Start.{Answers, recv_rrq-Answers}
use my_coding_exercises.Tftp.Netascii.{network_form}
use my_coding_exercises.Tftp.Rtt.{rtt_start, rtt_stop, rtt_timeout, observe, estimate}
use my_coding_exercises.Tftp.Run.{Run, ok}
use my_coding_exercises.Tftp.Server.File.{file_open, file_read, read_ascii}
use my_coding_exercises.Tftp.Server.Fsm.{
  Round, Machine, Loop, finished, rounds, round, dispatch, call,
}
use my_coding_exercises.Tftp.Server.Net.{datagram, net_recv, net_send, receive, take_datagram}
use my_coding_exercises.Tftp.Server.Send.{
  recv_rrq, recv_xrq, request_strings, find_nul, set_mode, strlccpy, check_name, check_access,
  open_request, recv_ack, accept_ack, send_data,
}

abbrev acknowledging : Round
acknowledging = record {
  started = some (5, 0);
  arrivals = datagram 1069 (ack 1) ∷ [];
  stopped = some (9, 0);
}

abbrev machine : Machine whole
machine = record { session = answered; rttinfo = timer; rttfirst = false }

abbrev machine_of : Run (Loop whole) → Machine whole
machine_of (ok (finished m)) = m
machine_of r = machine

abbrev end : Machine whole
end = machine_of (rounds whole disk (silent ∷ acknowledging ∷ []) machine)

loop_ends : rounds whole disk (silent ∷ acknowledging ∷ []) machine ≡ ok (finished end)
unfolding rounds round net_recv receive net_send rtt_start rtt_stop rtt_timeout observe estimate
    take_datagram dispatch call recv_rrq recv_xrq request_strings find_nul set_mode same_text
    strlccpy check_name check_access open_request file_open recv_ack accept_ack file_read read_ascii
    send_data
loop_ends = refl

answer : Answers disk request 12 server answered
answer = recv_rrq-Answers disk request 12 server server-Fresh disk_reads served

under_way : Sends (network_form answer.granted.mode answer.granted.stream.unread) answered
under_way = record {
  blocks = answer.out ∷ [];
  sends = answer.sends;
  op = answer.op;
  started = omega arith;
  no_request = no_request;
}

arrived : All (λ (r : Round). All IsArrival r.arrivals) (silent ∷ acknowledging ∷ [])
unfolding IsArrival
arrived = ((tt, tt), (((omega arith, (omega arith, (omega arith, (omega arith, tt)))), tt), tt))

rounds-Sends_example :
    Stands whole (network_form answer.granted.mode answer.granted.stream.unread) (finished end)
rounds-Sends_example =
    rounds-Sends whole disk (network_form answer.granted.mode answer.granted.stream.unread)
      (silent ∷ acknowledging ∷ []) machine under_way arrived loop_ends
