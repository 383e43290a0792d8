-- ===== src/Tftp/Client/File.antt =====
-- tftp-exercises/client/file_cli.c: the local file of the client. It differs from the server's
-- file.c in that `file_open` leaves `lastcr` and `nextchar` alone, and `file_close` only prints its
-- complaints.
pub mod Agree
pub mod Stale
use my_coding_exercises.Common.{
  ℕ, zero, suc, Bool, true, false, not, Option, none, some, List, [], ◌∷◌, ◌++◌, Bytes, codes, ◌==◌,
  same_text, if◌then◌else◌, take, drop, length,
}
use my_coding_exercises.Tftp.Run.{
  Run, ok, stop, ◌>>=◌, ◌>>◌, require, client_read_error, client_write_error, client_stray_cr,
  client_unknown_mode,
}
use my_coding_exercises.Tftp.Server.File.{stdout}
use my_coding_exercises.Tftp.Session.{Stream, LocalFile, Session}
use my_coding_exercises.Tftp.Wire.{mode_ascii, mode_binary}

-- The flag of `fopen` is true for mode "r" and false for mode "w".
unfoldable pub file_open :
    (Bytes → Bool → Option Stream) → Bytes → Bool → ℕ → Session → Option Session
file_open fopen fname reading initblknum s =
    elim (if same_text fname (codes "-") then some stdout else fopen fname reading) [
      | none ↦ none
      | some fp ↦
          some (record s { nextblknum = initblknum; localfp = record (s.localfp) { stream = fp } })
    ]

-- Whether the stream is closed; a failing `fclose` is printed, not returned.
unfoldable pub file_close : LocalFile → Bool
file_close f = not f.stream.is_stdout

-- The loop of `file_read` in ASCII mode: the rounds left, `ferror`, `nextchar` and the unread
-- bytes. It returns the bytes stored, `nextchar` and what is left unread.
unfoldable pub read_ascii : ℕ → Bool → Option ℕ → Bytes → Run (Bytes × Option ℕ × Bytes)
read_ascii zero fails nextchar unread = ok ([], nextchar, unread)
read_ascii (suc n) fails (some c) unread = do
  (out, nextchar', rest) ← read_ascii n fails none unread
  ok (c ∷ out, nextchar', rest)
read_ascii (suc n) fails none [] = if fails then stop client_read_error else ok ([], none, [])
read_ascii (suc n) fails none (c ∷ unread) = do
  (out, nextchar', rest) ←
      read_ascii n fails (if c == b'\n' then some b'\n' else if c == b'\r' then some 0 else none)
        unread
  ok ((if c == b'\n' then b'\r' else c) ∷ out, nextchar', rest)

-- Returns the bytes stored at `ptr`; the C function returns their number.
unfoldable pub file_read : LocalFile → ℕ → ℕ → Run (Bytes × LocalFile)
file_read f maxnbytes mode =
    if mode == mode_binary
    then (if f.stream.read_fails
        then stop client_read_error
        else ok (
          take maxnbytes f.stream.unread,
          record f { stream = record (f.stream) { unread = drop maxnbytes f.stream.unread } },
        ))
    else if mode == mode_ascii
    then (read_ascii maxnbytes f.stream.read_fails f.nextchar f.stream.unread >>= λ (out, c, rest).
        ok (out, record f { stream = record (f.stream) { unread = rest }; nextchar = c }))
    else stop client_unknown_mode

-- The byte that stands for a CR and the byte behind it.
unfoldable pub after_cr : ℕ → Run ℕ
after_cr c = if c == b'\n' then ok b'\n' else if c == 0 then ok b'\r' else stop (client_stray_cr c)

-- The loop of `file_write` in ASCII mode: whether `putc` fails, `lastcr`, the bytes written so far
-- and those to write.
unfoldable pub write_ascii : Bool → Bool → Bytes → Bytes → Run (Bool × Bytes)
write_ascii fails lastcr out [] = ok (lastcr, out)
write_ascii fails true out (c ∷ cs) = do
  d ← after_cr c
  require (not fails) client_write_error
  write_ascii fails false (out ++ d ∷ []) cs
write_ascii fails false out (c ∷ cs) = elim (c == b'\r') [
  | true ↦ write_ascii fails true out cs
  | false ↦ do require (not fails) client_write_error; write_ascii fails false (out ++ c ∷ []) cs
]

unfoldable pub file_write : LocalFile → Bytes → ℕ → Run LocalFile
file_write f bytes mode =
    if mode == mode_binary
    then (if f.stream.write_fails
        then stop client_write_error
        else ok (record f { stream = record (f.stream) { written = f.stream.written ++ bytes } }))
    else if mode == mode_ascii
    then (write_ascii f.stream.write_fails f.lastcr f.stream.written bytes >>= λ (lastcr', out).
        ok (record f { stream = record (f.stream) { written = out }; lastcr = lastcr' }))
    else stop client_unknown_mode
