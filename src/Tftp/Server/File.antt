-- ===== src/Tftp/Server/File.antt =====
-- tftp-exercises/server/file.c: the local file of the server, and the netascii conversion on it.
-- The C library is the argument `fopen` and the error flags of a `Stream`. `read` and `write` move
-- as many bytes as they are asked for, up to the end of the file, or report an error.
pub mod Convert
use my_coding_exercises.Common.{
  ℕ, zero, suc, Bool, true, false, not, Option, none, some, List, [], ◌∷◌, ◌++◌, Bytes, codes, ◌==◌,
  same_text, if◌then◌else◌, take, drop, length,
}
use my_coding_exercises.Tftp.Run.{
  Run, ok, stop, ◌>>=◌, ◌>>◌, require, read_error, write_error, stray_cr, unknown_mode, final_cr,
  pending_char, close_error,
}
use my_coding_exercises.Tftp.Session.{Stream, LocalFile, Session}
use my_coding_exercises.Tftp.Wire.{mode_ascii, mode_binary}

-- The standard output as a stream.
abbrev pub stdout : Stream
stdout = record {
  unread = [];
  written = [];
  is_stdout = true;
  read_fails = false;
  write_fails = false;
  close_fails = false;
}

-- The flag of `fopen` is true for mode "r" and false for mode "w".
unfoldable pub file_open :
    (Bytes → Bool → Option Stream) → Bytes → Bool → ℕ → Session → Option Session
file_open fopen filename reading initblknum s =
    elim (if same_text filename (codes "-") then some stdout else fopen filename reading) [
      | none ↦ none
      | some fp ↦ some (record s {
        nextblknum = initblknum;
        localfp = record { stream = fp; lastcr = false; nextchar = none };
      })
    ]

abbrev is_some {ℓ} : {A : Type ℓ} → Option A → Bool
is_some none = false
is_some (some _) = true

unfoldable pub file_close : LocalFile → Run (Unit {0})
file_close f =
    if f.lastcr
    then stop final_cr
    else if is_some f.nextchar
    then stop pending_char
    else if f.stream.is_stdout
    then ok tt
    else if f.stream.close_fails
    then stop close_error
    else ok tt

-- The loop of `file_read` in ASCII mode: the rounds left, `ferror`, `nextchar` and the unread
-- bytes. It returns the bytes stored, `nextchar` and what is left unread.
unfoldable pub read_ascii : ℕ → Bool → Option ℕ → Bytes → Run (Bytes × Option ℕ × Bytes)
read_ascii zero fails nextchar unread = ok ([], nextchar, unread)
read_ascii (suc n) fails (some c) unread = do
  (out, nextchar', rest) ← read_ascii n fails none unread
  ok (c ∷ out, nextchar', rest)
read_ascii (suc n) fails none [] = if fails then stop read_error else ok ([], none, [])
read_ascii (suc n) fails none (c ∷ unread) = do
  (out, nextchar', rest) ←
      read_ascii n fails (if c == b'\n' then some b'\n' else if c == b'\r' then some 0 else none)
        unread
  ok ((if c == b'\n' then b'\r' else c) ∷ out, nextchar', rest)

-- Returns the bytes stored at `ptr`; the C function returns their number.
unfoldable pub file_read : LocalFile → ℕ → ℕ → Run (Bytes × LocalFile)
file_read f maxnbytes mode =
    if mode == mode_binary
    then (if f.stream.read_fails
        then stop read_error
        else ok (
          take maxnbytes f.stream.unread,
          record f { stream = record (f.stream) { unread = drop maxnbytes f.stream.unread } },
        ))
    else if mode == mode_ascii
    then (read_ascii maxnbytes f.stream.read_fails f.nextchar f.stream.unread >>= λ (out, c, rest).
        ok (out, record f { stream = record (f.stream) { unread = rest }; nextchar = c }))
    else stop unknown_mode

-- The byte that stands for a CR and the byte behind it.
unfoldable pub after_cr : ℕ → Run ℕ
after_cr c = if c == b'\n' then ok b'\n' else if c == 0 then ok b'\r' else stop stray_cr

-- The loop of `file_write` in ASCII mode: whether `putc` fails, `lastcr`, the bytes written so far
-- and those to write.
unfoldable pub write_ascii : Bool → Bool → Bytes → Bytes → Run (Bool × Bytes)
write_ascii fails lastcr out [] = ok (lastcr, out)
write_ascii fails true out (c ∷ cs) = do
  d ← after_cr c
  require (not fails) write_error
  write_ascii fails false (out ++ d ∷ []) cs
write_ascii fails false out (c ∷ cs) = elim (c == b'\r') [
  | true ↦ write_ascii fails true out cs
  | false ↦ do require (not fails) write_error; write_ascii fails false (out ++ c ∷ []) cs
]

unfoldable pub file_write : LocalFile → Bytes → ℕ → Run LocalFile
file_write f bytes mode =
    if mode == mode_binary
    then (if f.stream.write_fails
        then stop write_error
        else ok (record f { stream = record (f.stream) { written = f.stream.written ++ bytes } }))
    else if mode == mode_ascii
    then (write_ascii f.stream.write_fails f.lastcr f.stream.written bytes >>= λ (lastcr', out).
        ok (record f { stream = record (f.stream) { written = out }; lastcr = lastcr' }))
    else stop unknown_mode
