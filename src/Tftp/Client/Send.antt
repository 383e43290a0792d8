-- ===== src/Tftp/Client/Send.antt =====
-- tftp-exercises/client/sendrecv_cli.c: the packets that the client sends, and the handlers of those
-- that it receives.
use my_coding_exercises.Common.{
  ℕ, ◌+◌, ◌-◌, ◌&&◌, [], ◌∷◌, ◌++◌, Bytes, codes, ◌==◌, ltb, if◌then◌else◌, take, drop, length,
  write_at,
}
use my_coding_exercises.Tftp.Client.File.{file_read, file_write}
use my_coding_exercises.Tftp.Client.Net.{net_send}
use my_coding_exercises.Tftp.Run.{
  Run, ok, stop, ◌>>=◌, ◌>>◌, require, Verdict, more, done, data_behind, data_ahead, ack_length,
  ack_behind, ack_ahead, unknown_mode,
}
use my_coding_exercises.Tftp.Session.{Session}
use my_coding_exercises.Tftp.Wire.{
  max_data, mode_ascii, mode_binary, op_data, op_ack, stshort, ldshort,
}

unfoldable pub mode_name : ℕ → Run Bytes
mode_name mode =
    if mode == mode_ascii
    then ok (codes "netascii")
    else if mode == mode_binary
    then ok (codes "octet")
    else stop unknown_mode

unfoldable pub send_rq : ℕ → Bytes → ℕ → Session → Run Session
send_rq opcode fname mode s = do
  let named = write_at 2 (fname ++ 0 ∷ []) (stshort opcode 0 s.sendbuff)
  let len = 2 + length fname + 1
  modestr ← mode_name mode
  let s₁ = record s {
    sendbuff = write_at len (modestr ++ 0 ∷ []) named;
    sendlen = len + length modestr + 1;
  }
  net_send s₁.sendbuff s₁.sendlen s₁

-- A C string: the bytes in front of the first null byte.
unfoldable pub c_string : Bytes → Bytes
c_string [] = []
c_string (c ∷ p) = if c == 0 then [] else c ∷ c_string p

-- The message is cut off at the length of the packet by a null byte in `recvbuff`, where `ptr` is
-- `recvbuff + 2`.
unfoldable pub recv_rqerr : Bytes → ℕ → Session → Run (Verdict × Session)
recv_rqerr ptr nbytes s =
    let cut = write_at nbytes (0 ∷ []) ptr in
    ok (
      done,
      record s {
        recvbuff = take 2 s.recvbuff ++ cut;
        reports = s.reports ++ (ldshort ptr, c_string (drop 2 cut)) ∷ [];
      },
    )

unfoldable pub send_ack : ℕ → Session → Run Session
send_ack blocknum s = do
  let s₁ = record s { sendbuff = stshort blocknum 2 (stshort op_ack 0 s.sendbuff); sendlen = 4 }
  s₂ ← net_send s₁.sendbuff s₁.sendlen s₁
  ok (record s₂ { op_sent = op_ack })

unfoldable pub send_data : ℕ → ℕ → Session → Run Session
send_data blocknum nbytes s = do
  let s₁ = record s {
    sendbuff = stshort blocknum 2 (stshort op_data 0 s.sendbuff);
    sendlen = nbytes + 4;
  }
  s₂ ← net_send s₁.sendbuff s₁.sendlen s₁
  ok (record s₂ { op_sent = op_data })

-- The data packet is the expected one. Unlike the server, the client closes the file later.
unfoldable pub accept_data : Bytes → ℕ → Session → Run Session
accept_data payload n s = do
  f ← (if ltb 0 n then file_write s.localfp payload s.modetype else ok s.localfp)
  ok (record s { nextblknum = s.nextblknum + 1; totnbytes = s.totnbytes + n; localfp = f })

-- The comparison of the block number received with the expected one.
unfoldable pub place_data : ℕ → Bytes → ℕ → Session → Run Session
place_data recvblknum payload n s =
    if recvblknum == s.nextblknum
    then accept_data payload n s
    else if ltb (recvblknum + 1) s.nextblknum
    then stop data_behind
    else if ltb s.nextblknum recvblknum
    then stop data_ahead
    else ok s

unfoldable pub recv_data : Bytes → ℕ → Session → Run (Verdict × Session)
recv_data ptr nbytes s = do
  let recvblknum = ldshort ptr
  let n = nbytes - 2
  s₁ ← place_data recvblknum (take n (drop 2 ptr)) n s
  s₂ ← send_ack recvblknum s₁
  ok ((if n == max_data then more else done), s₂)

unfoldable pub accept_ack : Session → Run (Verdict × Session)
accept_ack s = do
  (out, f) ← file_read s.localfp max_data s.modetype
  let s₁ = record s { localfp = f; sendbuff = write_at 4 out s.sendbuff }
  let n = length out
  (if n == 0 && ltb s.lastsend max_data then ok (done, s₁) else (do
    s₂ ←
        send_data (s.nextblknum + 1) n
          (record s₁ { lastsend = n; nextblknum = s.nextblknum + 1; totnbytes = s.totnbytes + n })
    ok (more, s₂)))

unfoldable pub recv_ack : Bytes → ℕ → Session → Run (Verdict × Session)
recv_ack ptr nbytes s = do
  let recvblknum = ldshort ptr
  require (nbytes == 2) ack_length
  (if recvblknum == s.nextblknum
      then accept_ack s
      else if ltb (recvblknum + 1) s.nextblknum
      then stop ack_behind
      else if ltb s.nextblknum recvblknum
      then stop ack_ahead
      else ok (more, s))
