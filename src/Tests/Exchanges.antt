-- ===== src/Tests/Exchanges.antt =====
-- A request that goes over the network, and a transfer on one that delivers.
use my_coding_exercises.Common.{
  ◌+◌, ◌*◌, ◌-◌, ◌/◌, ◌<◌, same_text, ◌≡◌, inl, [], ◌∷◌, ◌++◌, refl, Bytes, codes, length, drop,
  overlay, arith,
}
use my_coding_exercises.Tests.{greeting, disk, server, client, request}
use my_coding_exercises.Tests.Transfers.{
  answered, served, asked, server-Fresh, client-Asks, disk_reads,
}
use my_coding_exercises.Tftp.Client.Send.{send_rq}
use my_coding_exercises.Tftp.Exchange.Download.{System}
use my_coding_exercises.Tftp.Exchange.Ends.{lossless-ends}
use my_coding_exercises.Tftp.Exchange.Lossless.{lossless}
use my_coding_exercises.Tftp.Exchange.Request.{send_rq-request_strings}
use my_coding_exercises.Tftp.Netascii.{network_form}
use my_coding_exercises.Tftp.Run.{ok, done}
use my_coding_exercises.Tftp.Server.Access.{Names, named_mode}
use my_coding_exercises.Tftp.Server.Send.{request_strings}
use my_coding_exercises.Tftp.Session.{Session}
use my_coding_exercises.Tftp.Wire.{max_data, mode_binary, op_rrq, ldshort}

send_rq-request_strings_example :
    (s' : Session) × (p text : Bytes) × (send_rq op_rrq (codes "/a") mode_binary client ≡ ok s')
    × (s'.socket.sent ≡ client.socket.sent ++ p ∷ [])
    × (ldshort (overlay p server.recvbuff) ≡ op_rrq)
    × (request_strings (drop 2 (overlay p server.recvbuff)) (length p - 2) ≡ ok (codes "/a", text))
    × Names text mode_binary
send_rq-request_strings_example =
    send_rq-request_strings op_rrq (codes "/a") mode_binary client server.recvbuff (omega arith)
      (refl, (refl, tt)) (omega arith) (omega arith) refl refl refl

few_bytes : length (network_form (named_mode (codes "netascii")) greeting) < 65535 * max_data
unfolding same_text
few_bytes = omega arith

lossless-ends_example :
    (z : System) × (lossless disk 2069 1069
        (length (network_form (named_mode (codes "netascii")) greeting) / max_data + 1)
        (record { server = answered; client = client })
      ≡ ok (done, z))
    × (z.client.localfp.stream.written ≡ greeting)
unfolding same_text
lossless-ends_example =
    lossless-ends disk request 12 2069 1069 asked refl server-Fresh disk_reads served client-Asks
      refl refl (inl (refl, λ e. omega (arith, e))) refl refl few_bytes
