-- ===== src/Tftp/Server/Send.antt =====
-- tftp-exercises/server/sendrecv.c: the handlers of the packets that the server receives, and the
-- routines that send packets. A handler is given `recvbuff + 2` and the length behind it.
use my_coding_exercises.Common.{
  ℕ, zero, suc, ◌+◌, ◌-◌, ◌/◌, ◌%◌, Bool, true, false, not, ◌&&◌, Option, none, some, [], ◌∷◌, ◌++◌,
  Bytes, codes, ◌==◌, ltb, leb, if◌then◌else◌, take, drop, length, write_at, same_text, to_lower,
  get_or,
}
use my_coding_exercises.Tftp.Run.{
  Run, ok, stop, ◌>>=◌, ◌>>◌, require, Verdict, more, done, refused, overrun, invalid_filename,
  invalid_request_mode, unknown_opcode, data_too_long, data_behind, data_ahead, ack_length,
  ack_behind, ack_ahead,
}
use my_coding_exercises.Tftp.Server.File.{file_open, file_close, file_read, file_write}
use my_coding_exercises.Tftp.Server.Net.{net_send}
use my_coding_exercises.Tftp.Session.{Stream, Session}
use my_coding_exercises.Tftp.Wire.{
  max_data, max_filename, mode_ascii, mode_binary, op_rrq, op_wrq, op_data, op_ack, op_error,
  err_nofile, err_access, err_badop, stshort, ldshort,
}

-- The file system: the `st_mode` that `stat` gives, and `fopen`, whose flag is true for reading.
pub record Os : Type 0 where
  pub stat : Bytes → Option ℕ
  pub fopen : Bytes → Bool → Option Stream

-- `strlccpy`: the copy that ends up in `dest`.
unfoldable pub strlccpy : Bytes → Bytes
strlccpy [] = []
strlccpy (c ∷ src) = to_lower c ∷ strlccpy src

-- Ends the process, with the datagram that it has sent.
unfoldable pub send_error : ℕ → Bytes → Session → Run Session
send_error ecode text s = do
  let s₁ = record s {
    sendbuff = write_at 4 (text ++ 0 ∷ []) (stshort ecode 2 (stshort op_error 0 s.sendbuff));
    sendlen = 4 + length text + 1;
  }
  _ ← net_send s₁.sendbuff s₁.sendlen s₁
  stop (refused (take s₁.sendlen s₁.sendbuff))

-- A scan `for(; i < nbytes; i++) if(*ptr++ == 0) goto …` with the given number of rounds left: the
-- string in front of the null byte, the bytes behind it, and the rounds left with the one that
-- found it, since the jump skips `i++`.
-- Where the bytes end in front of the rounds, the scan would leave `recvbuff`; it finds nothing.
unfoldable pub find_nul : ℕ → Bytes → Option (Bytes × Bytes × ℕ)
find_nul zero p = none
find_nul (suc n) [] = none
find_nul (suc n) (c ∷ p) = elim (c == 0) [
  | true ↦ some ([], p, suc n)
  | false ↦ elim (find_nul n p) [
    | none ↦ none
    | some (text, rest, left) ↦ some (c ∷ text, rest, left)
  ]
]

-- `*(rindex(dirname, '/') + 1) = 0`: everything up to the last slash.
unfoldable pub dir_part : Bytes → Bytes
dir_part [] = []
dir_part (c ∷ p) =
    let rest = dir_part p in
    elim rest [ [] ↦ if c == b'/' then c ∷ [] else [] | d ∷ ds ↦ c ∷ d ∷ ds ]

-- `st_mode & (S_IREAD >> 6)` and `st_mode & (S_IWRITE >> 6)`, the bits 4 and 2.
abbrev pub world_readable : ℕ → Bool
world_readable st_mode = not (st_mode / 4 % 2 == 0)

abbrev pub world_writable : ℕ → Bool
world_writable st_mode = not (st_mode / 2 % 2 == 0)

-- The first half of `recv_xRQ`: the file name and the mode of a request. The arrays `filename` and
-- `mode` hold `max_filename` bytes, and nothing tests that the strings fit.
unfoldable pub request_strings : Bytes → ℕ → Run (Bytes × Bytes)
request_strings ptr nbytes = elim (find_nul nbytes ptr) [
  | none ↦ stop invalid_filename
  | some (filename, rest, left) ↦ do
    require (ltb (length filename) max_filename) overrun
    elim (find_nul left rest) [
      | none ↦ stop invalid_request_mode
      | some (mode, _, _) ↦ do
        require (ltb (length mode) max_filename) overrun
        ok (filename, strlccpy mode)
    ]
]

unfoldable pub set_mode : Bytes → Session → Run Session
set_mode mode s =
    if same_text mode (codes "netascii")
    then ok (record s { modetype = mode_ascii })
    else if same_text mode (codes "octet")
    then ok (record s { modetype = mode_binary })
    else send_error err_badop (codes "Mode isn't netascii or octet") s

unfoldable pub check_name : Bytes → Session → Run Session
check_name filename s =
    if get_or filename 0 0 == b'/'
    then ok s
    else send_error err_access (codes "filename must begin with '/'") s

module _ (os : Os) where
  -- The `stat` tests: a file to be read, or the directory of one to be written.
  unfoldable pub check_access : ℕ → Bytes → Session → Run Session
  check_access opcode filename s =
      if opcode == op_rrq
      then elim (os.stat filename) [
        | none ↦ send_error err_access (codes "filename get stat buffer error") s
        | some st_mode ↦
            if world_readable st_mode
            then ok s
            else send_error err_access (codes "File doesn't allow world read permission") s
      ]
      else if opcode == op_wrq
      then elim (os.stat (dir_part filename)) [
        | none ↦ send_error err_access (codes "dirname get stat buffer error") s
        | some st_mode ↦
            if world_writable st_mode
            then ok s
            else send_error err_access (codes "Directory doesn't allow world write permission") s
      ]
      else stop unknown_opcode

  -- The call of `file_open` for a request.
  unfoldable pub open_request : ℕ → Bytes → Session → Run Session
  open_request opcode filename s = elim (file_open os.fopen filename (opcode == op_rrq) 0 s) [
    | none ↦ send_error err_nofile (codes "file open error") s
    | some s' ↦ ok s'
  ]

  unfoldable pub recv_xrq : ℕ → Bytes → ℕ → Session → Run Session
  recv_xrq opcode ptr nbytes s = do
    (filename, mode) ← request_strings ptr nbytes
    s₁ ← set_mode mode s
    s₂ ← check_name filename s₁
    s₃ ← check_access opcode filename s₂
    open_request opcode filename s₃

unfoldable pub send_ack : ℕ → Session → Run Session
send_ack blocknum s = do
  let s₁ = record s { sendbuff = stshort blocknum 2 (stshort op_ack 0 s.sendbuff); sendlen = 4 }
  s₂ ← net_send s₁.sendbuff s₁.sendlen s₁
  ok (record s₂ { op_sent = op_ack })

unfoldable pub send_data : ℕ → ℕ → Session → Run Session
send_data blocknum nbytes s = do
  let s₁ = record s {
    sendbuff = stshort blocknum 2 (stshort op_data 0 s.sendbuff);
    sendlen = nbytes + 4;
  }
  s₂ ← net_send s₁.sendbuff s₁.sendlen s₁
  ok (record s₂ { op_sent = op_data })

-- The data packet is the expected one: it is written, and the last one closes the file.
unfoldable pub accept_data : Bytes → ℕ → Session → Run Session
accept_data payload n s = do
  let s₁ = record s { nextblknum = s.nextblknum + 1; totnbytes = s.totnbytes + n }
  f ← (if ltb 0 n then file_write s.localfp payload s.modetype else ok s.localfp)
  (if ltb n max_data then file_close f else ok tt)
  ok (record s₁ { localfp = f })

-- The comparison of the block number received with the expected one.
unfoldable pub place_data : ℕ → Bytes → ℕ → Session → Run Session
place_data recvblknum payload n s =
    if recvblknum == s.nextblknum
    then accept_data payload n s
    else if ltb (recvblknum + 1) s.nextblknum
    then stop data_behind
    else if ltb s.nextblknum recvblknum
    then stop data_ahead
    else ok s

unfoldable pub recv_data : Bytes → ℕ → Session → Run (Verdict × Session)
recv_data ptr nbytes s = do
  let recvblknum = ldshort ptr
  let n = nbytes - 2
  require (leb n max_data) data_too_long
  s₁ ← place_data recvblknum (take n (drop 2 ptr)) n s
  s₂ ← send_ack recvblknum s₁
  ok ((if n == max_data then more else done), s₂)

-- The acknowledgement is the expected one: the next block is read into `sendbuff + 4` and sent.
unfoldable pub accept_ack : Session → Run (Verdict × Session)
accept_ack s = do
  (out, f) ← file_read s.localfp max_data s.modetype
  let s₁ = record s { localfp = f; sendbuff = write_at 4 out s.sendbuff }
  let n = length out
  (if n == 0 && ltb s.lastsend max_data then ok (done, s₁) else (do
    s₂ ←
        send_data (s.nextblknum + 1) n
          (record s₁ { lastsend = n; nextblknum = s.nextblknum + 1; totnbytes = s.totnbytes + n })
    ok (more, s₂)))

unfoldable pub recv_ack : Bytes → ℕ → Session → Run (Verdict × Session)
recv_ack ptr nbytes s = do
  let recvblknum = ldshort ptr
  require (nbytes == 2) ack_length
  (if recvblknum == s.nextblknum
      then accept_ack s
      else if ltb (recvblknum + 1) s.nextblknum
      then stop ack_behind
      else if ltb s.nextblknum recvblknum
      then stop ack_ahead
      else ok (more, s))

module _ (os : Os) where
  unfoldable pub recv_rrq : Bytes → ℕ → Session → Run (Verdict × Session)
  recv_rrq ptr nbytes s = do
    s₁ ← recv_xrq os op_rrq ptr nbytes s
    (_, s₂) ← recv_ack (stshort 0 0 (0 ∷ 0 ∷ [])) 2 (record s₁ { lastsend = max_data })
    ok (more, s₂)

  unfoldable pub recv_wrq : Bytes → ℕ → Session → Run (Verdict × Session)
  recv_wrq ptr nbytes s = do
    s₁ ← recv_xrq os op_wrq ptr nbytes s
    s₂ ← send_ack 0 (record s₁ { nextblknum = 1 })
    ok (more, s₂)
